-- ===== src/Main/Trace/Laws.antt =====
-- src/main.cpp, src/i8085_disasm.c: the two texts of a trace line stand between quotes in a JSON object.
use tool_i8085_trace.Prelude.{
  get_elem?, ℕ, zero, suc, ◌+◌, ◌-◌, ◌≡◌, refl, Bool, true, not, ◌&&◌, Option, none, some, List, [],
  ◌∷◌, ◌++◌, arith, ltb, leb, ◌==◌, take, skip_spaces,
}
use Prim.Native.Nat.{ℕ}
use tool_i8085_trace.Gdb.{hex_char, hex_byte}
use tool_i8085_trace.Disasm.Templates.{
  Template, printed, printed_byte, printed_word, templates, text,
}
use tool_i8085_trace.Disasm.Printing.{disasm_printf, print_case, disassemble}
use tool_i8085_trace.Disasm.Assembler.{head}
use tool_i8085_trace.Main.Trace.{word_of, extract_mnemonic}

-- A character that a JSON string holds as it is: printable, and no quote or backslash.
unfoldable pub plain : ℕ → Bool
plain ch = leb 32 ch && ltb ch 127 && not (ch == b'"') && not (ch == b'\\')

unfoldable pub all_plain : List ℕ → Bool
all_plain [] = true
all_plain (ch ∷ chs) = plain ch && all_plain chs

abbrev pub IsPlain : List ℕ → Type 0
IsPlain t = all_plain t ≡ true

plain_heads : List Template → Bool
plain_heads [] = true
plain_heads (c ∷ cs) = all_plain (head c) && plain_heads cs

all_heads : plain_heads templates ≡ true
unfolding plain_heads templates all_plain plain
all_heads = refl

append-IsPlain : (t r : List ℕ) → IsPlain t → IsPlain r → IsPlain (t ++ r)
unfolding all_plain
append-IsPlain [] r h g = g
append-IsPlain (x ∷ xs) r h g = ground (arith, h, append-IsPlain xs r (ground (arith, h)) g)

take-IsPlain : (n : ℕ) (t : List ℕ) → IsPlain t → IsPlain (take n t)
unfolding all_plain
take-IsPlain zero t h = refl
take-IsPlain (suc n) [] h = refl
take-IsPlain (suc n) (x ∷ xs) h = ground (arith, h, take-IsPlain n xs)

skip_spaces-IsPlain : (t : List ℕ) → IsPlain t → IsPlain (skip_spaces t)
unfolding all_plain skip_spaces
skip_spaces-IsPlain [] h = refl
skip_spaces-IsPlain (x ∷ xs) h = ground (arith, h, skip_spaces-IsPlain xs)

word_of-IsPlain : (t : List ℕ) → IsPlain t → IsPlain (word_of t)
unfolding all_plain word_of
word_of-IsPlain [] h = refl
word_of-IsPlain (x ∷ xs) h = ground (arith, h, word_of-IsPlain xs)

hex_byte-IsPlain : (b : ℕ) → IsPlain (hex_byte b)
unfolding all_plain plain hex_byte hex_char
hex_byte-IsPlain b = ground arith

text-IsPlain : (c : Template) (b1 b2 : ℕ) → IsPlain (head c) → IsPlain (text c b1 b2)
unfolding text all_plain plain
text-IsPlain (printed t) b1 b2 h = h
text-IsPlain (printed_byte t) b1 b2 h =
    append-IsPlain t (b'$' ∷ hex_byte b1) h (hex_byte-IsPlain b1)
text-IsPlain (printed_word t) b1 b2 h =
    append-IsPlain t (b'$' ∷ (hex_byte b2 ++ hex_byte b1)) h
      (append-IsPlain (hex_byte b2) (hex_byte b1) (hex_byte-IsPlain b2) (hex_byte-IsPlain b1))

heads_at :
    (cs : List Template) (n : ℕ) (c : Template)
    → plain_heads cs ≡ true
    → get_elem? cs n ≡ some c
    → IsPlain (head c)
unfolding plain_heads
heads_at [] n c h e = ground (arith, e)
heads_at (x ∷ xs) zero c h e = ground (arith, h, e)
heads_at (x ∷ xs) (suc n) c h e = heads_at xs n c (ground (arith, h)) e

disasm_printf-IsPlain :
    (out_len : ℕ) (t : List ℕ)
    → IsPlain t
    → IsPlain (disasm_printf (record { written = []; disasm_len = out_len }) t).written
unfolding disasm_printf
disasm_printf-IsPlain out_len t h = ground (arith, h, take-IsPlain (out_len - 1) t h)

print_case-IsPlain :
    (out_len op : ℕ) (found : Option Template) (b1 b2 : ℕ)
    → get_elem? templates op ≡ found
    → IsPlain (print_case (record { written = []; disasm_len = out_len }) found b1 b2).written
unfolding print_case all_plain
print_case-IsPlain out_len op none b1 b2 e = refl
print_case-IsPlain out_len op (some c) b1 b2 e =
    disasm_printf-IsPlain out_len (text c b1 b2)
      (text-IsPlain c b1 b2 (heads_at templates op c all_heads e))

-- The text and the mnemonic that stand between quotes in a line of the trace have no quote, no
-- backslash and no control character, whatever memory holds and however long the two buffers are.
pub extract_mnemonic-IsPlain :
    (memory : ℕ → ℕ) (pc out_len mnemonic_len : ℕ)
    → IsPlain (disassemble memory pc out_len).0
      × IsPlain (extract_mnemonic (disassemble memory pc out_len).0 mnemonic_len)
unfolding disassemble extract_mnemonic
extract_mnemonic-IsPlain memory pc out_len mnemonic_len =
    let asm : IsPlain (disassemble memory pc out_len).0 =
      print_case-IsPlain out_len (memory pc) (get_elem? templates (memory pc)) (memory (pc + 1))
        (memory (pc + 2)) refl in
    let t : List ℕ = (disassemble memory pc out_len).0 in
    let word : IsPlain (word_of (skip_spaces t)) =
      word_of-IsPlain (skip_spaces t) (skip_spaces-IsPlain t asm) in
    (asm, ground (arith, word, take-IsPlain (mnemonic_len - 1) (word_of (skip_spaces t)) word))
