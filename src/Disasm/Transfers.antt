-- ===== src/Disasm/Transfers.antt =====
-- src/i8085_disasm.c: the lengths, row by row, of the opcodes that go on to the next instruction.
use tool_i8085_trace.Prelude.{
  ◌+◌, ◌-◌, ◌%◌, ◌≤◌, ◌<◌, ◌≡◌, Bool, false, ◌||◌, [], ◌∷◌, arith, ◌==◌, if◌then◌else◌,
}
use tool_i8085_trace.Prelude.{ℕ}
use tool_i8085_trace.Cpu.State.{State}
use tool_i8085_trace.Disasm.{is_one_of, opbytes}

-- The jumps, calls, returns and restarts, taken or not.
abbrev pub transfers : ℕ → Bool
transfers op = is_one_of op (
    0xc0 ∷ 0xc2 ∷ 0xc3 ∷ 0xc4 ∷ 0xc7 ∷ 0xc8 ∷ 0xc9 ∷ 0xca ∷ 0xcb ∷ 0xcc ∷ 0xcd ∷ 0xcf ∷ 0xd0 ∷ 0xd2
    ∷ 0xd4 ∷ 0xd7 ∷ 0xd8 ∷ 0xda ∷ 0xdc ∷ 0xdd ∷ 0xdf ∷ 0xe0 ∷ 0xe2 ∷ 0xe4 ∷ 0xe7 ∷ 0xe8 ∷ 0xe9
    ∷ 0xea ∷ 0xec ∷ 0xef ∷ 0xf0 ∷ 0xf2 ∷ 0xf4 ∷ 0xf7 ∷ 0xf8 ∷ 0xfa ∷ 0xfc ∷ 0xfd ∷ 0xff ∷ [])

pub row_0_length :
    (op : ℕ)
    → op < 0x10
    → opbytes op ≡ (if op == 0x01 then 3 else if op == 0x06 || op == 0x0e then 2 else 1)
unfolding opbytes
row_0_length op hi = ground arith

pub row_1_length :
    (op : ℕ)
    → 0x10 ≤ op
    → op < 0x20
    → opbytes op ≡ (if op == 0x11 then 3 else if op == 0x16 || op == 0x1e then 2 else 1)
unfolding opbytes
row_1_length op lo hi = ground arith

pub row_2_length :
    (op : ℕ)
    → 0x20 ≤ op
    → op < 0x30
    → opbytes op ≡ (
        if op == 0x21 || op == 0x22 || op == 0x2a
        then 3
        else if op == 0x26 || op == 0x28 || op == 0x2e
        then 2
        else 1)
unfolding opbytes
row_2_length op lo hi = ground arith

pub row_3_length :
    (op : ℕ)
    → 0x30 ≤ op
    → op < 0x40
    → opbytes op ≡ (
        if op == 0x31 || op == 0x32 || op == 0x3a
        then 3
        else if op == 0x36 || op == 0x38 || op == 0x3e
        then 2
        else 1)
unfolding opbytes
row_3_length op lo hi = ground arith

pub row_c_length :
    (op : ℕ)
    → 0xc0 ≤ op
    → op < 0xd0
    → transfers op ≡ false
    → opbytes op ≡ (if op == 0xc6 || op == 0xce then 2 else 1)
unfolding opbytes
row_c_length op lo hi t = ground arith

pub row_d_length :
    (op : ℕ)
    → 0xd0 ≤ op
    → op < 0xe0
    → transfers op ≡ false
    → opbytes op ≡ (if op == 0xd3 || op == 0xd6 || op == 0xdb || op == 0xde then 2 else 1)
unfolding opbytes
row_d_length op lo hi t = ground arith

pub row_e_length :
    (op : ℕ)
    → 0xe0 ≤ op
    → op < 0xf0
    → transfers op ≡ false
    → opbytes op ≡ (if op == 0xe6 || op == 0xee then 2 else 1)
unfolding opbytes
row_e_length op lo hi t = ground arith

pub row_f_length :
    (op : ℕ)
    → 0xf0 ≤ op
    → op < 0x100
    → transfers op ≡ false
    → opbytes op ≡ (if op == 0xf6 || op == 0xfe then 2 else 1)
unfolding opbytes
row_f_length op lo hi t = ground arith

pub middle_length : (op : ℕ) → 0x40 ≤ op → op < 0xc0 → opbytes op ≡ 1
unfolding opbytes
middle_length op lo hi = ground arith

abbrev pub transfers_c : ℕ → Bool
transfers_c op =
    op == 0xc0
    || op == 0xc2
    || op == 0xc3
    || op == 0xc4
    || op == 0xc7
    || op == 0xc8
    || op == 0xc9
    || op == 0xca
    || op == 0xcb
    || op == 0xcc
    || op == 0xcd
    || op == 0xcf

pub kept_c : (op : ℕ) → transfers op ≡ false → transfers_c op ≡ false
kept_c op t = ground arith

abbrev pub transfers_d : ℕ → Bool
transfers_d op =
    op == 0xd0
    || op == 0xd2
    || op == 0xd4
    || op == 0xd7
    || op == 0xd8
    || op == 0xda
    || op == 0xdc
    || op == 0xdd
    || op == 0xdf

pub kept_d : (op : ℕ) → transfers op ≡ false → transfers_d op ≡ false
kept_d op t = ground arith

abbrev pub transfers_e : ℕ → Bool
transfers_e op =
    op == 0xe0
    || op == 0xe2
    || op == 0xe4
    || op == 0xe7
    || op == 0xe8
    || op == 0xe9
    || op == 0xea
    || op == 0xec
    || op == 0xef

pub kept_e : (op : ℕ) → transfers op ≡ false → transfers_e op ≡ false
kept_e op t = ground arith

abbrev pub transfers_f : ℕ → Bool
transfers_f op =
    op == 0xf0
    || op == 0xf2
    || op == 0xf4
    || op == 0xf7
    || op == 0xf8
    || op == 0xfa
    || op == 0xfc
    || op == 0xfd
    || op == 0xff

pub kept_f : (op : ℕ) → transfers op ≡ false → transfers_f op ≡ false
kept_f op t = ground arith

-- PC behind the instruction, where it is behind the opcode before.
abbrev pub moved_on : {W : Type 0} → State W → ℕ → ℕ
moved_on s op = (s.pc + (opbytes op - 1)) % 65536
