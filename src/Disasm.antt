-- ===== src/Disasm.antt =====
-- src/i8085_disasm.c, `Disassemble8085Op`: the instruction lengths that it returns. Its texts are in
-- Templates and Printing. The 256 cases are given by what they assign to `opbytes`, whose default is 1.
pub mod Helpers
pub mod HighRows
pub mod Lengths
pub mod LowRows
pub mod Mnemonics
pub mod Assembler
pub mod Printing
pub mod Templates
pub mod Transfers
use tool_i8085_trace.Prelude.{Bool, false, ◌||◌, List, [], ◌∷◌, ◌==◌, if◌then◌else◌}
use tool_i8085_trace.Prelude.{ℕ}

abbrev pub is_one_of : ℕ → List ℕ → Bool
is_one_of op [] = false
is_one_of op (c ∷ cs) = op == c || is_one_of op cs

-- The cases with an operand of two bytes.
abbrev pub with_word : List ℕ
with_word =
    0x01 ∷ 0x11 ∷ 0x21 ∷ 0x22 ∷ 0x2a ∷ 0x31 ∷ 0x32 ∷ 0x3a ∷ 0xc2 ∷ 0xc3 ∷ 0xc4 ∷ 0xca ∷ 0xcc ∷ 0xcd
    ∷ 0xd2 ∷ 0xd4 ∷ 0xda ∷ 0xdc ∷ 0xdd ∷ 0xe2 ∷ 0xe4 ∷ 0xea ∷ 0xec ∷ 0xf2 ∷ 0xf4 ∷ 0xfa ∷ 0xfc
    ∷ 0xfd ∷ []

-- The cases with an operand of one byte.
abbrev pub with_byte : List ℕ
with_byte =
    0x06 ∷ 0x0e ∷ 0x16 ∷ 0x1e ∷ 0x26 ∷ 0x28 ∷ 0x2e ∷ 0x36 ∷ 0x38 ∷ 0x3e ∷ 0xc6 ∷ 0xce ∷ 0xd3 ∷ 0xd6
    ∷ 0xdb ∷ 0xde ∷ 0xe6 ∷ 0xee ∷ 0xf6 ∷ 0xfe ∷ []

unfoldable pub opbytes : ℕ → ℕ
opbytes op = if is_one_of op with_word then 3 else if is_one_of op with_byte then 2 else 1
