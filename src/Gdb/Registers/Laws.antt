-- ===== src/Gdb/Registers/Laws.antt =====
-- src/gdb_stub.cpp: a register that is written and read.
use tool_i8085_trace.Prelude.{
  ℕ, ◌+◌, ◌*◌, ◌/◌, ◌%◌, ◌<◌, ◌≡◌, Bool, true, false, arith, ltb, ◌==◌, if◌then◌else◌, u8, word,
  word_lem,
}
use tool_i8085_trace.Cpu.State.{Flags, State}
use tool_i8085_trace.Gdb.Registers.{
  pack_flags, unpack_flags, reg_size, read_reg, write_reg, z80_read, z80_write, reg_count, reg_get,
  reg_set,
}

-- What a flags byte keeps: bits 7, 6, 4, 2 and 0, and bit 1 set.
abbrev pub kept_flags : ℕ → ℕ
kept_flags f = f / 128 % 2 * 128 + f / 64 % 2 * 64 + f / 16 % 2 * 16 + f / 4 % 2 * 4 + 2 + f % 2

pack_flags-unpack_flags : (cc : Flags) (f : ℕ) → pack_flags (unpack_flags cc f) ≡ kept_flags f
unfolding pack_flags unpack_flags
pack_flags-unpack_flags cc f = ground arith

-- What register `i` of the i8085 keeps of a value.
abbrev pub kept : ℕ → ℕ → ℕ
kept i v =
    if i == 9
    then kept_flags (u8 v)
    else if i == 10
    then v / 256 * 256 + kept_flags (u8 v)
    else if reg_size i == 1
    then u8 v
    else v

abbrev pub kept_z80 : ℕ → ℕ → ℕ
kept_z80 i v = if i == 0 then v / 256 * 256 + kept_flags (u8 v) else if ltb i 6 then v else 0

kept_flags_small : (f : ℕ) → kept_flags f < 256
kept_flags_small f = omega arith

pack_flags_small : (cc : Flags) → pack_flags cc < 256
unfolding pack_flags
pack_flags_small cc = ground arith

pair_word : (v f : ℕ) → v < 65536 → f < 256 → word (u8 (v / 256)) f ≡ v / 256 * 256 + f
pair_word v f h k = omega (arith, word_lem (u8 (v / 256)) f (omega arith) k)

pair_back : (v : ℕ) → v < 65536 → word (u8 (v / 256)) (u8 v) ≡ v
pair_back v h = omega (arith, word_lem (u8 (v / 256)) (u8 v) (omega arith) (omega arith))

module _ {W : Type 0} (s : State W) (v : ℕ) (b : v < 65536) where
  read_reg-write_reg : (i : ℕ) → i < 15 → read_reg (write_reg s i v) i ≡ kept i v
  unfolding read_reg write_reg reg_size
  read_reg-write_reg i h = ground (
    arith,
    pair_back v b,
    pack_flags-unpack_flags s.cc (u8 v),
    pair_word v (kept_flags (u8 v)) b (kept_flags_small (u8 v)),
  )

  z80_read-z80_write : (i : ℕ) → z80_read (z80_write s i v) i ≡ kept_z80 i v
  unfolding z80_read z80_write
  z80_read-z80_write i = ground (
    arith,
    pair_back v b,
    pack_flags-unpack_flags s.cc (u8 v),
    pair_word v (kept_flags (u8 v)) b (kept_flags_small (u8 v)),
  )

  -- Register `i` reads what was written, in both modes: a byte register of the i8085 keeps the low
  -- byte, flags keep the five bits that the protocol carries with bit 1 set, and the registers that
  -- only a z80 has read 0.
  pub reg_get-reg_set :
      (z80 : Bool) (i : ℕ)
      → i < reg_count z80
      → reg_get z80 (reg_set z80 s i v) i ≡ (if z80 then kept_z80 i v else kept i v)
  unfolding reg_get reg_set reg_count
  reg_get-reg_set true i h = z80_read-z80_write i
  reg_get-reg_set false i h = read_reg-write_reg i h
