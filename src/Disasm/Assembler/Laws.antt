-- ===== src/Disasm/Assembler/Laws.antt =====
-- src/i8085_disasm.c: assembling the text of an instruction.
use tool_i8085_trace.Prelude.{
  length, get_elem?, ℕ, zero, suc, ◌+◌, ◌*◌, ◌/◌, ◌%◌, ◌<◌, ◌≤◌, ◌≡◌, refl, ap, true, some, List,
  [], ◌∷◌, ◌++◌, arith, drop, before_char, lacks,
}
use Prim.Native.Nat.{ℕ}
use tool_i8085_trace.Gdb.{hex_char, hex_byte}
use tool_i8085_trace.Gdb.Codec.{hex_val-hex_char}
use tool_i8085_trace.Disasm.{opbytes}
use tool_i8085_trace.Disasm.Templates.{
  Template, printed, printed_byte, printed_word, templates, text,
}
use tool_i8085_trace.Disasm.Printing.{disasm_printf, print_case, disassemble}
use tool_i8085_trace.Disasm.Assembler.{
  head, digit, operand_bytes, assemble, all_distinct, tail, operand_size, all_sized, distinct_at,
  sized_at,
}

before_char_whole : (ch : ℕ) (t : List ℕ) → lacks ch t ≡ true → before_char ch t ≡ t
unfolding before_char lacks
before_char_whole ch [] h = refl
before_char_whole ch (x ∷ xs) h = ground (arith, h, before_char_whole ch xs)

before_char_part : (ch : ℕ) (t r : List ℕ) → lacks ch t ≡ true → before_char ch (t ++ ch ∷ r) ≡ t
unfolding before_char lacks
before_char_part ch [] r h = ground arith
before_char_part ch (x ∷ xs) r h = ground (arith, h, before_char_part ch xs r)

drop-append : (t r : List ℕ) → drop (length t) (t ++ r) ≡ r
drop-append [] r = refl
drop-append (x ∷ xs) r = drop-append xs r

drop-length : (t : List ℕ) → drop (length t) t ≡ []
drop-length [] = refl
drop-length (x ∷ xs) = drop-length xs

before_char-text :
    (c : Template) (b1 b2 : ℕ)
    → lacks b'$' (head c) ≡ true
    → before_char b'$' (text c b1 b2) ≡ head c
unfolding text
before_char-text (printed t) b1 b2 h = before_char_whole b'$' t h
before_char-text (printed_byte t) b1 b2 h = before_char_part b'$' t (hex_byte b1) h
before_char-text (printed_word t) b1 b2 h = before_char_part b'$' t (hex_byte b2 ++ hex_byte b1) h

drop-text : (c : Template) (b1 b2 : ℕ) → drop (length (head c)) (text c b1 b2) ≡ tail c b1 b2
unfolding text
drop-text (printed t) b1 b2 = drop-length t
drop-text (printed_byte t) b1 b2 = drop-append t (b'$' ∷ hex_byte b1)
drop-text (printed_word t) b1 b2 = drop-append t (b'$' ∷ (hex_byte b2 ++ hex_byte b1))

digit-hex_char : (d : ℕ) → d < 16 → digit (hex_char d) ≡ d
digit-hex_char d h = ground (arith, hex_val-hex_char d h)

digits_byte :
    (b : ℕ) → b < 256 → digit (hex_char (b / 16 % 16)) * 16 + digit (hex_char (b % 16)) ≡ b
digits_byte b h =
    ground
      (arith, digit-hex_char (b / 16 % 16) (omega arith), digit-hex_char (b % 16) (omega arith))

-- The bytes at an address.
abbrev pub bytes_at : (ℕ → ℕ) → ℕ → ℕ → List ℕ
bytes_at f addr zero = []
bytes_at f addr (suc n) = f addr ∷ bytes_at f (addr + 1) n

abbrev operands : Template → ℕ → ℕ → List ℕ
operands (printed t) b1 b2 = []
operands (printed_byte t) b1 b2 = b1 ∷ []
operands (printed_word t) b1 b2 = b1 ∷ b2 ∷ []

operand_bytes-tail :
    (c : Template) (b1 b2 : ℕ)
    → b1 < 256
    → b2 < 256
    → operand_bytes (tail c b1 b2) ≡ operands c b1 b2
unfolding operand_bytes hex_byte
operand_bytes-tail (printed t) b1 b2 h1 h2 = refl
operand_bytes-tail (printed_byte t) b1 b2 h1 h2 = ap (λ x. x ∷ []) (digits_byte b1 h1)
operand_bytes-tail (printed_word t) b1 b2 h1 h2 = cc (digits_byte b1 h1, digits_byte b2 h2)

bytes_at-operands :
    (f : ℕ → ℕ) (pc : ℕ) (c : Template)
    → bytes_at f (pc + 1) (operand_size c) ≡ operands c (f (pc + 1)) (f (pc + 2))
bytes_at-operands f pc (printed t) = refl
bytes_at-operands f pc (printed_byte t) = refl
bytes_at-operands f pc (printed_word t) = ground arith

length-append : (t r : List ℕ) → length (t ++ r) ≡ length t + length r
length-append [] r = omega arith
length-append (x ∷ xs) r = omega (arith, length-append xs r)

length-text :
    (c : Template) (b1 b2 : ℕ) → length (text c b1 b2) ≡ length (head c) + length (tail c 0 0)
unfolding text hex_byte
length-text (printed t) b1 b2 = omega arith
length-text (printed_byte t) b1 b2 = length-append t (b'$' ∷ hex_byte b1)
length-text (printed_word t) b1 b2 = length-append t (b'$' ∷ (hex_byte b2 ++ hex_byte b1))

assemble-text :
    (op b1 b2 : ℕ) (c : Template)
    → get_elem? templates op ≡ some c
    → b1 < 256
    → b2 < 256
    → assemble (text c b1 b2) ≡ some (op ∷ operands c b1 b2)
unfolding assemble
assemble-text op b1 b2 c e h1 h2 =
    let (fresh, found) = distinct_at 0 op templates c all_distinct e in
    ground (
      arith,
      before_char-text c b1 b2 fresh,
      drop-text c b1 b2,
      found,
      operand_bytes-tail c b1 b2 h1 h2,
    )

printed_whole :
    (t : List ℕ) (out_len : ℕ)
    → length t < out_len
    → (disasm_printf (record { written = []; disasm_len = out_len }) t).written ≡ t
unfolding disasm_printf
printed_whole t out_len h = ground arith

element_at :
    (cs : List Template) (n : ℕ) → n < length cs → (c : Template) × (get_elem? cs n ≡ some c)
element_at [] n h = ground (arith, h)
element_at (c ∷ cs) zero h = (c, refl)
element_at (c ∷ cs) (suc n) h = element_at cs n (omega (arith, h))

sized_of :
    (op : ℕ) (c : Template)
    → get_elem? templates op ≡ some c
    → (opbytes op ≡ suc (operand_size c)) × (length (head c) + length (tail c 0 0) < 17)
sized_of op c e = ground (arith, sized_at 0 op templates c all_sized e)

template_at : (op : ℕ) → op < 256 → (c : Template) × (get_elem? templates op ≡ some c)
unfolding templates
template_at op h = element_at templates op h

-- The text of every opcode with its two operand bytes assembles, by a table of mnemonics that is built
-- from the bit fields of the opcode and knows nothing of the disassembler's, to exactly the bytes
-- that the instruction occupies by the length that is returned, in every buffer of at least 17
-- characters.
pub assemble-disassemble :
    (codebuffer : ℕ → ℕ) (pc out_len : ℕ)
    → 17 ≤ out_len
    → codebuffer pc < 256
    → codebuffer (pc + 1) < 256
    → codebuffer (pc + 2) < 256
    → assemble (disassemble codebuffer pc out_len).0
      ≡ some (bytes_at codebuffer pc (disassemble codebuffer pc out_len).1)
unfolding disassemble print_case
assemble-disassemble f pc out_len room h0 h1 h2 =
    let op = f pc in
    let (c, e) = template_at op h0 in
    let (size, short) = sized_of op c e in
    let whole =
      printed_whole (text c (f (pc + 1)) (f (pc + 2))) out_len
        (omega (arith, length-text c (f (pc + 1)) (f (pc + 2)), short, room)) in
    ground (
      arith,
      e,
      whole,
      assemble-text op (f (pc + 1)) (f (pc + 2)) c e h1 h2,
      size,
      bytes_at-operands f pc c,
    )
