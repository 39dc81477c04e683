-- ===== src/Gdb/Packets/Laws.antt =====
-- src/gdb_stub.cpp: what `G` makes of the registers that `g` reports.
use tool_i8085_trace.Prelude.{
  ℕ, zero, suc, ◌+◌, ◌*◌, ◌/◌, ◌%◌, ◌≤◌, ◌<◌, ◌≡◌, refl, ◌∙◌, ◌⊎◌, inl, inr, Bool, true, false,
  some, List, ◌++◌, arith, ◌==◌, if◌then◌else◌, u8, word, word_lem,
}
use Prim.Native.Nat.{ℕ}
use mathlib.Core.Path.{fun_ext}
use mathlib.Core.List.{append_assoc}
use tool_i8085_trace.Cpu.State.{Flags, State, store}
use tool_i8085_trace.Gdb.{hex_byte}
use tool_i8085_trace.Gdb.Codec.{hex_val-hex_char}
use tool_i8085_trace.Gdb.Registers.{
  reg_size, read_reg, write_reg, z80_read, reg_bytes, reg_get, hex_reg, pack_flags, unpack_flags,
}
use tool_i8085_trace.Gdb.Packets.{hex_pair, take_value, read_all, write_all}

pub hex_pair-hex_byte : (v : ℕ) (rest : List ℕ) → hex_pair (hex_byte v ++ rest) ≡ some (u8 v, rest)
unfolding hex_pair hex_byte
hex_pair-hex_byte v rest = ground (arith, hex_val-hex_char (v / 16 % 16), hex_val-hex_char (v % 16))

-- Registers that hold what their C types hold, and a byte at HL.
pub record IsValid {W : Type 0} (s : State W) : Type 0 where
  pub a : s.a < 256
  pub b : s.b < 256
  pub c : s.c < 256
  pub d : s.d < 256
  pub e : s.e < 256
  pub h : s.h < 256
  pub l : s.l < 256
  pub sp : s.sp < 65536
  pub pc : s.pc < 65536
  pub m : s.memory (word s.h s.l) < 256

pack_flags_small : (cc : Flags) → pack_flags cc < 256
unfolding pack_flags
pack_flags_small cc = ground arith

module _ {W : Type 0} (s : State W) (v : IsValid s) where
  words_small :
      (word s.a (pack_flags s.cc) ≡ s.a * 256 + pack_flags s.cc)
      × (word s.b s.c ≡ s.b * 256 + s.c)
      × (word s.d s.e ≡ s.d * 256 + s.e)
      × (word s.h s.l ≡ s.h * 256 + s.l)
  words_small = (
    word_lem s.a (pack_flags s.cc) v.a (pack_flags_small s.cc),
    word_lem s.b s.c v.b v.c,
    word_lem s.d s.e v.d v.e,
    word_lem s.h s.l v.h v.l,
  )

  read_reg_size : (i : ℕ) → read_reg s i < (if reg_size i == 1 then 256 else 65536)
  unfolding read_reg reg_size
  read_reg_size i = ground (
    arith,
    words_small,
    pack_flags_small s.cc,
    v.a,
    v.b,
    v.c,
    v.d,
    v.e,
    v.h,
    v.l,
    v.sp,
    v.pc,
    v.m,
  )

  z80_read_small : (i : ℕ) → z80_read s i < 65536
  unfolding z80_read
  z80_read_small i =
      ground
        (arith, words_small, pack_flags_small s.cc, v.a, v.b, v.c, v.d, v.e, v.h, v.l, v.sp, v.pc)

  reg_get_small :
      (z80 : Bool) (i : ℕ) → reg_get z80 s i < (if reg_bytes z80 i == 1 then 256 else 65536)
  unfolding reg_get reg_bytes
  reg_get_small true i = z80_read_small i
  reg_get_small false i = read_reg_size i

  -- A register of one or two bytes is taken from the front of what `hex_reg` gives.
  take_value-hex_reg :
      (z80 : Bool) (i : ℕ) (rest : List ℕ)
      → (reg_bytes z80 i ≡ 1) ⊎ (reg_bytes z80 i ≡ 2)
      → take_value (reg_bytes z80 i) (hex_reg z80 s i ++ rest) ≡ some (reg_get z80 s i, rest)
  unfolding take_value hex_reg
  take_value-hex_reg z80 i rest (inl e) =
      let exact : u8 (u8 (reg_get z80 s i)) ≡ reg_get z80 s i =
        ground (arith, reg_get_small z80 i) in
      ground (arith, hex_pair-hex_byte (u8 (reg_get z80 s i)) rest)
  take_value-hex_reg z80 i rest (inr e) =
      let lo = u8 (reg_get z80 s i) in
      let hi = u8 (reg_get z80 s i / 256) in
      let whole : word (u8 hi) (u8 lo) ≡ reg_get z80 s i =
        ground (arith, word_lem (u8 hi) (u8 lo), reg_get_small z80 i) in
      let flat : (hex_byte lo ++ hex_byte hi) ++ rest ≡ hex_byte lo ++ (hex_byte hi ++ rest) =
        append_assoc (hex_byte lo) (hex_byte hi) rest in
      ground (arith, flat, hex_pair-hex_byte lo (hex_byte hi ++ rest), hex_pair-hex_byte hi rest)

  -- `write_reg` of the values that `g` has reported for `s`, on a state that has moved on.
  abbrev pub restored : Bool → State W → ℕ → ℕ → State W
  restored z80 t zero i = t
  restored z80 t (suc left) i = restored z80 (write_reg t i (reg_get z80 s i)) left (i + 1)

  bytes_known : (z80 : Bool) (i : ℕ) → i < 15 → (reg_bytes z80 i ≡ 1) ⊎ (reg_bytes z80 i ≡ 2)
  unfolding reg_bytes reg_size
  bytes_known true i h = inr refl
  bytes_known false i h = ground arith

  write_all-read_all_lem :
      (z80 : Bool) (left : ℕ) (t : State W) (i : ℕ)
      → left + i ≤ 15
      → write_all z80 t left i (read_all z80 s left i) ≡ restored z80 t left i
  unfolding write_all read_all
  write_all-read_all_lem z80 zero t i h = refl
  write_all-read_all_lem z80 (suc left) t i h = ground (
    arith,
    take_value-hex_reg z80 i (read_all z80 s left (i + 1)) (bytes_known z80 i (omega arith)),
    write_all-read_all_lem z80 left (write_reg t i (reg_get z80 s i)) (i + 1),
  )

  store_same : (m : ℕ → ℕ) (a : ℕ) → store m a (m a) ≡ m
  store_same m a = fun_ext (λ x. ground arith)

  unpack_flags-pack_flags : (cc : Flags) → unpack_flags cc (pack_flags cc) ≡ cc
  unfolding pack_flags unpack_flags
  unpack_flags-pack_flags cc = ground arith

  write_reg-read_reg : (i : ℕ) → write_reg s i (read_reg s i) ≡ s
  unfolding write_reg read_reg
  write_reg-read_reg i = ground (
    arith,
    words_small,
    pack_flags_small s.cc,
    unpack_flags-pack_flags s.cc,
    store_same s.memory (word s.h s.l),
    v.a,
    v.b,
    v.c,
    v.d,
    v.e,
    v.h,
    v.l,
    v.m,
  )

  restored_same : (left i : ℕ) → restored false s left i ≡ s
  unfolding reg_get
  restored_same zero i = refl
  restored_same (suc left) i = rw (write_reg-read_reg i) (restored_same left (i + 1))

  -- `G` with what `g` reports changes nothing on an i8085: every register, the flags that the
  -- protocol does not carry and the byte at HL are as they were.
  pub write_all-read_all : write_all false s 15 0 (read_all false s 15 0) ≡ s
  write_all-read_all = write_all-read_all_lem false 15 s 0 (omega arith) ∙ restored_same 15 0

  -- `G` with what `g` reports destroys the registers of a z80: the numbers are those of a z80, but
  -- the values go to the registers of the i8085, so BC, SP and PC become 0 whatever they were.
  write_all-z80 :
      let t = write_all true s 13 0 (read_all true s 13 0) in
      (t.pc ≡ 0) × (t.sp ≡ 0) × (t.b ≡ 0) × (t.c ≡ 0)
  unfolding write_reg reg_get z80_read
  write_all-z80 = rw (write_all-read_all_lem true 13 s 0 (omega arith)) (refl, refl, refl, refl)
