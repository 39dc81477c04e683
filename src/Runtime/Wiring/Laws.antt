-- ===== src/Runtime/Wiring/Laws.antt =====
-- src/io_runtime.cpp: what the pin table is told when a netlist is loaded, and what a step finds.
use tool_i8085_trace.Prelude.{
  length, get_elem?, ℕ, ◌+◌, ◌≡◌, refl, sym, inl, inr, true, false, not, ◌&&◌, Option, none, some,
  List, [], ◌∷◌, ◌++◌, arith, ltb, ◌==◌, Bool-cases, strtoul, same_text, drop,
}
use Prim.Native.Nat.{ℕ}
use mathlib.Core.Path.{subst}
use mathlib.Core.List.{append_assoc}
use tool_i8085_trace.Plugins.Ppi.{PinBus}
use tool_i8085_trace.Runtime.{Plugin, memory, i8255, pit8254, mc6850}
use tool_i8085_trace.Runtime.Wiring.{
  PinHandle, snapshot, bit_at, find_bus, find_pin, bus_at, pin_is_output,
}
use tool_i8085_trace.Prelude.{auto_base}
use tool_i8085_trace.Runtime.Wiring.Resolve.{
  Found, resolve_cpu_pin, search_pin, resolve_chip_pin, resolve, without_digits,
}

same_text_eq : (a b : List ℕ) → same_text a b ≡ true → a ≡ b
unfolding same_text
same_text_eq [] [] e = refl
same_text_eq [] (d ∷ ds) e = ground arith
same_text_eq (c ∷ cs) [] e = ground arith
same_text_eq (c ∷ cs) (d ∷ ds) e = ground (arith, same_text_eq cs ds)

-- No bus of a name; all buses with names of their own.
abbrev NoBus : List ℕ → List (List ℕ × PinBus) → Type 0
NoBus field [] = Unit {0}
NoBus field (b ∷ pins) = (same_text field b.0 ≡ false) × NoBus field pins

abbrev Distinct : List (List ℕ × PinBus) → Type 0
Distinct [] = Unit {0}
Distinct (b ∷ pins) = NoBus b.0 pins × Distinct pins

no_pin :
    (pins : List (List ℕ × PinBus)) (field : List ℕ) (i : ℕ)
    → NoBus field pins
    → find_pin field i pins ≡ none
unfolding find_pin
no_pin [] field i h = refl
no_pin ((name, bus) ∷ pins) field i (e, h) = ground (arith, no_pin pins field i h)

first_bus :
    (pins : List (List ℕ × PinBus)) (field : List ℕ) (i : ℕ) (bus : PinBus)
    → Distinct pins
    → find_pin field i pins ≡ some bus
    → (find_bus field pins ≡ some bus) × (ltb i bus.width ≡ true)
unfolding find_pin find_bus
first_bus [] field i bus d e = ground arith
first_bus ((name, b) ∷ pins) field i bus (n, d) e = elim (Bool-cases (same_text field name)) [
  | inl s ↦
      let same : field ≡ name = same_text_eq field name s in
      let other : NoBus field pins = subst (λ (x : List ℕ). NoBus x pins) (sym same) n in
      ground (arith, s, no_pin pins field i other)
  | inr s ↦ ground (arith, s, first_bus pins field i bus d)
]

snapshot-Distinct : (p : Plugin) → Distinct (snapshot p).pins
unfolding snapshot same_text
snapshot-Distinct (memory c) = tt
snapshot-Distinct (i8255 c) = ((refl, (refl, tt)), ((refl, tt), (tt, tt)))
snapshot-Distinct (pit8254 c) = ((refl, tt), (tt, tt))
snapshot-Distinct (mc6850 c) =
    ((refl, (refl, (refl, tt))), ((refl, (refl, tt)), ((refl, tt), (tt, tt))))

bus_at_found :
    (plugins : List Plugin) (idx : ℕ) (p : Plugin) (ph : PinHandle) (bus : PinBus)
    → ph.plugin ≡ some idx
    → get_elem? plugins idx ≡ some p
    → find_pin ph.field ph.bit (snapshot p).pins ≡ some bus
    → bus_at plugins ph ≡ some bus
unfolding bus_at
bus_at_found plugins idx p ph bus e1 e2 e3 =
    ground (arith, first_bus (snapshot p).pins ph.field ph.bit bus (snapshot-Distinct p) e3)

length-append_one :
    (before : List Plugin) (p : Plugin) → length (before ++ p ∷ []) ≡ length before + 1
length-append_one [] p = omega arith
length-append_one (q ∷ qs) p = omega (arith, length-append_one qs p)

get_elem?-append :
    (before : List Plugin) (p : Plugin) (ps : List Plugin)
    → get_elem? (before ++ p ∷ ps) (length before) ≡ some p
get_elem?-append [] p ps = refl
get_elem?-append (q ∷ qs) p ps = get_elem?-append qs p ps

agree_here :
    (before : List Plugin) (p : Plugin) (ps : List Plugin) (field : List ℕ) (i : ℕ) (sub : List ℕ)
    (found : Found) (q : Option PinBus)
    → find_pin field i (snapshot p).pins ≡ q
    → (let here : Option Found = elim q [
      | none ↦ none
      | some bus ↦ some (
        record { plugin = some (length before); field = field; bit = i; sub = sub },
        not (bit_at bus.is_input i),
      )
    ] in
        here ≡ some found)
    → pin_is_output (before ++ p ∷ ps) found.0 ≡ found.1
unfolding pin_is_output
agree_here before p ps field i sub found none e1 e2 = ground arith
agree_here before p ps field i sub found (some bus) e1 e2 =
    let ph : PinHandle = record {
      plugin = some (length before);
      field = field;
      bit = i;
      sub = sub;
    } in
    ground (
      arith,
      bus_at_found (before ++ p ∷ ps) (length before) p ph bus refl (get_elem?-append before p ps)
          e1,
    )

search_agrees :
    (ps before : List Plugin) (kind : List ℕ) (base : ℕ) (field : List ℕ) (i : ℕ) (sub : List ℕ)
    (found : Found)
    → search_pin ps (length before) kind base field i sub ≡ some found
    → pin_is_output (before ++ ps) found.0 ≡ found.1
unfolding search_pin
search_agrees [] before kind base field i sub found e = ground arith
search_agrees (p ∷ ps) before kind base field i sub found e =
    let next = before ++ p ∷ [] in
    elim (Bool-cases (same_text kind (snapshot p).kind && (snapshot p).base == base)) [
      | inl m ↦
          agree_here before p ps field i sub found (find_pin field i (snapshot p).pins) refl
            (ground (arith, m, e))
      | inr m ↦
          let flat : next ++ ps ≡ before ++ p ∷ ps = append_assoc before (p ∷ []) ps in
          let size : length next ≡ length before + 1 = length-append_one before p in
          let later : search_pin ps (length next) kind base field i sub ≡ some found =
            ground (arith, m, e, size) in
          subst (λ (x : List Plugin). pin_is_output x found.0 ≡ found.1) flat
            (search_agrees ps next kind base field i sub found later)
    ]

chip_agrees :
    (plugins : List Plugin) (kind base_text sub : List ℕ) (found : Found)
    → resolve_chip_pin plugins kind base_text sub ≡ some found
    → pin_is_output plugins found.0 ≡ found.1
unfolding resolve_chip_pin
chip_agrees plugins kind base_text sub found e =
    let base = (strtoul (auto_base base_text) base_text).0 in
    let field = without_digits sub in
    ground (
      arith,
      search_agrees plugins [] kind base field (strtoul 10 (drop (length field) sub)).0 sub found,
    )

cpu_agrees :
    (plugins : List Plugin) (name : List ℕ) (found : Found)
    → resolve_cpu_pin name ≡ some found
    → pin_is_output plugins found.0 ≡ found.1
unfolding resolve_cpu_pin pin_is_output
cpu_agrees plugins name found e = ground arith

-- The direction at load time is the live one: a pin that the netlist's text names is reported as an
-- output exactly when the look at its plugin that every step takes, or the CPU's list of its lines,
-- calls it one.
pub resolve-pin_is_output :
    (plugins : List Plugin) (s : List ℕ) (found : Found)
    → resolve plugins s ≡ some found
    → pin_is_output plugins found.0 ≡ found.1
unfolding resolve
resolve-pin_is_output plugins s found e = grind (arith, chip_agrees, cpu_agrees)
