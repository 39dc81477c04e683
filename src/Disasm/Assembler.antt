-- ===== src/Disasm/Assembler.antt =====
-- src/i8085_disasm.c: the text of an instruction can be assembled to the bytes of the instruction.
pub mod Laws
use tool_i8085_trace.Prelude.{
  length, get_elem?, ℕ, zero, suc, ◌+◌, ◌-◌, ◌*◌, ◌/◌, ◌%◌, ◌<◌, ◌≤◌, ◌≡◌, sym, refl, ap, ◌∙◌, Bool,
  true, false, not, ◌&&◌, Option, none, some, List, [], ◌∷◌, ◌++◌, arith, ltb, leb, ◌==◌,
  if◌then◌else◌, take, drop, codes, same_text, before_char, lacks,
}
use Prim.Native.Nat.{ℕ}
use tool_i8085_trace.Gdb.{hex_val, hex_char, hex_byte}
use tool_i8085_trace.Gdb.Codec.{hex_val-hex_char}
use tool_i8085_trace.Disasm.{opbytes, is_one_of}
use tool_i8085_trace.Disasm.Templates.{
  Template, printed, printed_byte, printed_word, templates, text,
}
use tool_i8085_trace.Disasm.Mnemonics.{instruction_set}
use tool_i8085_trace.Disasm.Printing.{Out, disasm_printf, print_case, disassemble}

-- What stands in front of the operand.
abbrev pub head : Template → List ℕ
head (printed t) = t
head (printed_byte t) = t
head (printed_word t) = t

-- The number of the first template with a head.
unfoldable pub find : ℕ → List ℕ → List Template → Option ℕ
find i t [] = none
find i t (c ∷ cs) = let rest = find (i + 1) t cs in if same_text t (head c) then some i else rest

abbrev pub digit : ℕ → ℕ
digit ch = elim (hex_val ch) [ none ↦ 0 | some d ↦ d ]

-- The bytes of an operand, the low byte first.
unfoldable pub operand_bytes : List ℕ → List ℕ
operand_bytes (dollar ∷ a ∷ b ∷ []) = (digit a * 16 + digit b) ∷ []
operand_bytes (dollar ∷ a ∷ b ∷ c ∷ d ∷ rest) =
    (digit c * 16 + digit d) ∷ (digit a * 16 + digit b) ∷ []
operand_bytes (dollar ∷ a ∷ b ∷ c ∷ []) = []
operand_bytes (dollar ∷ a ∷ []) = []
operand_bytes (dollar ∷ []) = []
operand_bytes [] = []

-- The bytes of an instruction, from its text, by the mnemonics.
unfoldable pub assemble : List ℕ → Option (List ℕ)
assemble t =
    let name = before_char b'$' t in
    elim (find 0 name instruction_set) [
      | none ↦ none
      | some op ↦ some (op ∷ operand_bytes (drop (length name) t))
    ]

-- Whether the templates from number `i` on have heads without a `$`, which are the mnemonics of their
-- numbers.
unfoldable pub distinct : ℕ → List Template → Bool
distinct i [] = true
distinct i (c ∷ cs) =
    lacks b'$' (head c)
    && elim (find 0 (head c) instruction_set) [ none ↦ false | some j ↦ i == j ]
    && distinct (i + 1) cs

pub all_distinct : distinct 0 templates ≡ true
unfolding distinct templates instruction_set find same_text lacks
all_distinct = refl

-- What stands behind the head.
abbrev pub tail : Template → ℕ → ℕ → List ℕ
tail (printed t) b1 b2 = []
tail (printed_byte t) b1 b2 = b'$' ∷ hex_byte b1
tail (printed_word t) b1 b2 = b'$' ∷ (hex_byte b2 ++ hex_byte b1)

abbrev pub operand_size : Template → ℕ
operand_size (printed t) = 0
operand_size (printed_byte t) = 1
operand_size (printed_word t) = 2

-- Whether the templates from number `i` on print the operands that `opbytes` counts, in at most
-- sixteen characters.
unfoldable pub sized : ℕ → List Template → Bool
sized i [] = true
sized i (c ∷ cs) =
    opbytes i == suc (operand_size c)
    && ltb (length (head c) + length (tail c 0 0)) 17
    && sized (i + 1) cs

pub all_sized : sized 0 templates ≡ true
unfolding sized templates opbytes hex_byte
all_sized = refl

pub distinct_at :
    (i n : ℕ) (cs : List Template) (c : Template)
    → distinct i cs ≡ true
    → get_elem? cs n ≡ some c
    → (lacks b'$' (head c) ≡ true) × (find 0 (head c) instruction_set ≡ some (i + n))
unfolding distinct
distinct_at i n [] c h e = ground (arith, e)
distinct_at i zero (x ∷ xs) c h e = ground (arith, e, h)
distinct_at i (suc n) (x ∷ xs) c h e = ground (arith, e, h, distinct_at (i + 1) n xs c)

pub sized_at :
    (i n : ℕ) (cs : List Template) (c : Template)
    → sized i cs ≡ true
    → get_elem? cs n ≡ some c
    → (opbytes (i + n) ≡ suc (operand_size c)) × (length (head c) + length (tail c 0 0) < 17)
unfolding sized
sized_at i n [] c h e = ground (arith, e)
sized_at i zero (x ∷ xs) c h e = ground (arith, e, h)
sized_at i (suc n) (x ∷ xs) c h e = ground (arith, e, h, sized_at (i + 1) n xs c)
