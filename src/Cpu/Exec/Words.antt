-- ===== src/Cpu/Exec/Words.antt =====
-- src/i8085_exec.c: the 16-bit instructions on pairs of byte registers, as arithmetic on words.
use tool_i8085_trace.Prelude.{◌^◌}
use tool_i8085_trace.Prelude.{true, false}
use tool_i8085_trace.Prelude.Bits.{or_unit, or_comm, or_high, or-zero, and_bit, xor_digits}
use tool_i8085_trace.Prelude.{◌/◌}
use tool_i8085_trace.Prelude.{bit_or}
use tool_i8085_trace.Prelude.{bit_and}
use tool_i8085_trace.Prelude.{u8}
use tool_i8085_trace.Prelude.{Bool}
use tool_i8085_trace.Prelude.{leb}
use tool_i8085_trace.Prelude.{◌↔◌}
use tool_i8085_trace.Prelude.{◌==◌}
use tool_i8085_trace.Prelude.{false}
use tool_i8085_trace.Prelude.{word_lem}
use tool_i8085_trace.Prelude.{u16}
use tool_i8085_trace.Prelude.{sub16}
use tool_i8085_trace.Prelude.{bit}
use tool_i8085_trace.Prelude.{◌%◌}
use tool_i8085_trace.Prelude.{ℕ, ◌+◌, ◌*◌, ◌<◌, ◌≡◌, arith}
use tool_i8085_trace.Cpu.State.{State, Bus}
use tool_i8085_trace.Cpu.Exec.Ops.{inx, dcx, dad}
use tool_i8085_trace.Cpu.Exec.Load.{row_0, row_1, row_2}
use tool_i8085_trace.Cpu.Exec.Special.{dsub, arhl, rdel, ral, rar}
use tool_i8085_trace.Cpu.Step.{execute}
use tool_i8085_trace.Cpu.Exec.Roundtrip.{Pair, bc, de, hl, pair_code, high, low}

-- The word in a pair.
abbrev pub pair : {W : Type 0} → Pair → State W → ℕ
pair p s = high p s * 256 + low p s

-- Every pair holds two bytes.
abbrev pub HasBytes : {W : Type 0} → State W → Type 0
HasBytes s = (s.b < 256) × (s.c < 256) × (s.d < 256) × (s.e < 256) × (s.h < 256) × (s.l < 256)

-- INX of BC, DE or HL, with pairs of bytes, adds 1 to the word modulo 2 ^ 16, sets X5 exactly at
-- the wrap to 0, and keeps the other flags.
pub inx_word :
    {W : Type 0} (bus : Bus W) (p : Pair) (s : State W) (at : ℕ)
    → HasBytes s
    → let t = (execute bus s at (0x03 + 16 * pair_code p)).0 in
      (pair p t ≡ u16 (pair p s + 1)) × (t.cc ≡ record (s.cc) { x5 = pair p s == 0xffff })
unfolding execute row_0 row_1 row_2 inx
inx_word bus bc s at h = ground arith
inx_word bus de s at h = ground arith
inx_word bus hl s at h = ground arith

-- DCX of BC, DE or HL, with pairs of bytes, takes 1 off the word modulo 2 ^ 16, sets X5 exactly
-- at the wrap to 0xFFFF, and keeps the other flags.
pub dcx_word :
    {W : Type 0} (bus : Bus W) (p : Pair) (s : State W) (at : ℕ)
    → HasBytes s
    → let t = (execute bus s at (0x0b + 16 * pair_code p)).0 in
      (pair p t ≡ sub16 (pair p s) 1) × (t.cc ≡ record (s.cc) { x5 = pair p s == 0 })
unfolding execute row_0 row_1 row_2 dcx
dcx_word bus bc s at h = ground arith
dcx_word bus de s at h = ground arith
dcx_word bus hl s at h = ground arith

-- DAD of BC, DE or HL, with pairs of bytes, adds the pair to HL: the sum is the new HL with the
-- carry flag as its bit 16, and the other flags stay.
pub dad_word :
    {W : Type 0} (bus : Bus W) (p : Pair) (s : State W) (at : ℕ)
    → HasBytes s
    → let t = (execute bus s at (0x09 + 16 * pair_code p)).0 in
      (pair hl t + 65536 * bit t.cc.cy ≡ pair hl s + pair p s)
      × (t.cc ≡ record (s.cc) { cy = t.cc.cy })
unfolding execute row_0 row_1 row_2 dad
dad_word bus bc s at h = ground (arith, word_lem s.h s.l, word_lem s.b s.c)
dad_word bus de s at h = ground (arith, word_lem s.h s.l, word_lem s.d s.e)
dad_word bus hl s at h = ground (arith, word_lem s.h s.l)

-- The two's complement value of a word, plus 2 ^ 15.
abbrev pub biased16 : ℕ → ℕ
biased16 x = (x + 0x8000) % 0x10000

-- DSUB, with pairs of bytes, takes BC off HL: the carry flag is the borrow, V is clear exactly
-- when the signed difference fits, and Z and S are those of the word.
pub dsub_word :
    {W : Type 0} (s : State W)
    → HasBytes s
    → let t = dsub s in
      (pair hl t + pair bc s ≡ pair hl s + 65536 * bit t.cc.cy)
      × ((t.cc.v ≡ false)
          ↔ (biased16 (pair hl t) + biased16 (pair bc s) ≡ biased16 (pair hl s) + 0x8000))
      × (t.cc.z ≡ (pair hl t == 0))
      × (t.cc.s ≡ leb 0x8000 (pair hl t))
unfolding dsub
dsub_word s h = ground (arith, word_lem s.h s.l, word_lem s.b s.c)

-- ARHL, with pairs of bytes, halves HL as a signed number, rounding down, and the carry flag is
-- the bit shifted out.
pub arhl_word :
    {W : Type 0} (s : State W)
    → HasBytes s
    → let t = arhl s in 2 * biased16 (pair hl t) + bit t.cc.cy ≡ biased16 (pair hl s) + 0x8000
unfolding arhl
arhl_word s h = ground (arith, word_lem s.h s.l)

-- RDEL, with pairs of bytes, doubles DE with the carry shifted in and out, and V is clear exactly
-- when the sign stays.
pub rdel_word :
    {W : Type 0} (s : State W)
    → HasBytes s
    → let t = rdel s in
      (pair de t + 65536 * bit t.cc.cy ≡ 2 * pair de s + bit s.cc.cy)
      × ((t.cc.v ≡ false) ↔ (leb 0x8000 (pair de t) ≡ leb 0x8000 (pair de s)))
unfolding rdel
rdel_word s h =
    let de = s.d * 256 + s.e in
    let shifted = u16 (de * 2 + bit s.cc.cy) in
    ground (
      arith,
      word_lem s.d s.e,
      or_unit de (bit s.cc.cy),
      xor_digits (de / 2 ^ 15 % 2) (shifted / 2 ^ 15 % 2),
    )

or_low_bit : (x : ℕ) (c : Bool) → x < 256 → bit_or (bit c) (x * 2) ≡ x * 2 + bit c
or_low_bit x true h =
    rw (or_comm 9 1 (x * 2) (omega arith) (omega arith)) (or_unit x 1 (omega arith) (omega arith))
or_low_bit x false h =
    rw (or_comm 9 0 (x * 2) (omega arith) (omega arith)) (or_unit x 0 (omega arith) (omega arith))

or_high_bit : (x : ℕ) (c : Bool) → x < 128 → bit_or x (bit c * 128) ≡ x + bit c * 128
or_high_bit x true h =
    rw (or_comm 8 x 128 (omega arith) (omega arith)) (omega (arith, or_high 7 1 x (omega arith) h))
or_high_bit x false h = omega (arith, or-zero 8 x (omega arith))

-- RAL and then RAR gives the CPU back, carry included, for an accumulator that is a byte.
pub rar-ral : {W : Type 0} (s : State W) → s.a < 256 → rar (ral s) ≡ s
unfolding rar ral
rar-ral s h =
    let rotated = u8 (s.a * 2 + bit s.cc.cy) in
    let top : Bool = bit_and s.a 0x80 / 128 == 1 in
    ground (arith, or_low_bit s.a s.cc.cy, or_high_bit (rotated / 2) top, and_bit 7 s.a)
