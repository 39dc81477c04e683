-- ===== src/Runtime/Wiring/Resolve.antt =====
-- src/io_runtime.cpp: `rt_resolve`, which finds the pin that a text of the netlist names.
use tool_i8085_trace.Prelude.{
  length, ℕ, ◌+◌, Bool, true, false, not, ◌&&◌, ◌||◌, Option, none, some, List, [], ◌∷◌, leb, ◌==◌,
  if◌then◌else◌, strtoul, codes, same_text, starts_with, after_char, drop, before_char,
}
use Prim.Native.Nat.{ℕ}
use tool_i8085_trace.Prelude.{auto_base}
use tool_i8085_trace.Runtime.{Plugin}
use tool_i8085_trace.Runtime.Wiring.{PinHandle, snapshot, bit_at, find_pin}

abbrev pub is_empty : List ℕ → Bool
is_empty [] = true
is_empty (c ∷ cs) = false

-- A text without the digits at its end.
unfoldable pub without_digits : List ℕ → List ℕ
without_digits [] = []
without_digits (c ∷ cs) =
    let rest = without_digits cs in
    if is_empty rest && leb b'0' c && leb c b'9' then [] else c ∷ rest

-- The handle that is appended, and whether it is an output.
abbrev pub Found : Type 0
Found = PinHandle × Bool

-- `rt_resolve_cpu_pin`
unfoldable pub resolve_cpu_pin : List ℕ → Option Found
resolve_cpu_pin name =
    let output = same_text name (codes "SOD") in
    if output
      || same_text name (codes "RST7.5")
      || same_text name (codes "RST6.5")
      || same_text name (codes "RST5.5")
      || same_text name (codes "TRAP")
      || same_text name (codes "SID")
    then some (record { plugin = none; field = name; bit = 0; sub = name }, output)
    else none

-- The loop over the plugins: the first one of the kind and base decides.
unfoldable pub search_pin : List Plugin → ℕ → List ℕ → ℕ → List ℕ → ℕ → List ℕ → Option Found
search_pin [] idx kind base field i sub = none
search_pin (p ∷ ps) idx kind base field i sub =
    let rest = search_pin ps (idx + 1) kind base field i sub in
    if same_text kind (snapshot p).kind && (snapshot p).base == base
    then (elim (find_pin field i (snapshot p).pins) [
      | none ↦ none
      | some bus ↦ some (
        record { plugin = some idx; field = field; bit = i; sub = sub },
        not (bit_at bus.is_input i),
      )
    ])
    else rest

-- The parts of "kind@base.Sub".
unfoldable pub resolve_chip_pin : List Plugin → List ℕ → List ℕ → List ℕ → Option Found
resolve_chip_pin plugins kind base_text sub =
    let (base, end) = strtoul (auto_base base_text) base_text in
    let field = without_digits sub in
    let digits = drop (length field) sub in
    if is_empty kind || is_empty sub || is_empty base_text || not (is_empty end) || is_empty field
    then none
    else search_pin plugins 0 kind base field (strtoul 10 digits).0 sub

-- `rt_resolve`
unfoldable pub resolve : List Plugin → List ℕ → Option Found
resolve plugins s =
    if starts_with (codes "cpu.") s then resolve_cpu_pin (drop 4 s) else (elim (after_char b'@' s) [
      | none ↦ none
      | some rest ↦ elim (after_char b'.' rest) [
        | none ↦ none
        | some sub ↦ resolve_chip_pin plugins (before_char b'@' s) (before_char b'.' rest) sub
      ]
    ])
