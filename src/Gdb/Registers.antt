-- ===== src/Gdb/Registers.antt =====
-- src/gdb_stub.cpp: the registers as the debugger sees them, for the i8085 and as a z80.
-- A register number is a native number: the C functions are called with none below 0.
pub mod Laws
use tool_i8085_trace.Prelude.{
  ℕ, ◌+◌, ◌*◌, ◌/◌, Bool, ◌&&◌, ◌||◌, List, [], ◌++◌, leb, ◌==◌, if◌then◌else◌, bit, u8, word,
}
use tool_i8085_trace.Cpu.State.{Flags, State, flag, store}
use tool_i8085_trace.Gdb.{hex_byte}

-- `pack_flags`: the fields do not overlap, so `|=` adds.
unfoldable pub pack_flags : Flags → ℕ
pack_flags cc =
    bit cc.s * 0x80 + bit cc.z * 0x40 + bit cc.ac * 0x10 + bit cc.p * 0x04 + 0x02 + bit cc.cy

unfoldable pub unpack_flags : Flags → ℕ → Flags
unpack_flags cc f = record cc {
  s = flag (f / 128);
  z = flag (f / 64);
  ac = flag (f / 16);
  p = flag (f / 4);
  cy = flag f;
}

abbrev pub num_regs : ℕ
num_regs = 15

abbrev pub num_z80_regs : ℕ
num_z80_regs = 13

unfoldable pub reg_size : ℕ → ℕ
reg_size regnum =
    if leb regnum 7 || regnum == 9
    then 1
    else if regnum == 8 || leb 10 regnum && leb regnum 14
    then 2
    else 0

module _ {W : Type 0} where
  unfoldable pub read_reg : State W → ℕ → ℕ
  read_reg s regnum =
      let flags = pack_flags s.cc in
      if regnum == 0
      then s.b
      else if regnum == 1
      then s.c
      else if regnum == 2
      then s.d
      else if regnum == 3
      then s.e
      else if regnum == 4
      then s.h
      else if regnum == 5
      then s.l
      else if regnum == 6
      then s.memory (word s.h s.l)
      else if regnum == 7
      then s.a
      else if regnum == 8
      then s.sp
      else if regnum == 9
      then flags
      else if regnum == 10
      then word s.a flags
      else if regnum == 11
      then s.pc
      else if regnum == 12
      then word s.b s.c
      else if regnum == 13
      then word s.d s.e
      else if regnum == 14
      then word s.h s.l
      else 0

  unfoldable pub write_reg : State W → ℕ → ℕ → State W
  write_reg s regnum val =
      if regnum == 0
      then record s { b = u8 val }
      else if regnum == 1
      then record s { c = u8 val }
      else if regnum == 2
      then record s { d = u8 val }
      else if regnum == 3
      then record s { e = u8 val }
      else if regnum == 4
      then record s { h = u8 val }
      else if regnum == 5
      then record s { l = u8 val }
      else if regnum == 6
      then record s { memory = store s.memory (word s.h s.l) (u8 val) }
      else if regnum == 7
      then record s { a = u8 val }
      else if regnum == 8
      then record s { sp = val }
      else if regnum == 9
      then record s { cc = unpack_flags s.cc (u8 val) }
      else if regnum == 10
      then record s { a = u8 (val / 256); cc = unpack_flags s.cc (u8 val) }
      else if regnum == 11
      then record s { pc = val }
      else if regnum == 12
      then record s { b = u8 (val / 256); c = u8 val }
      else if regnum == 13
      then record s { d = u8 (val / 256); e = u8 val }
      else if regnum == 14
      then record s { h = u8 (val / 256); l = u8 val }
      else s

  unfoldable pub z80_read : State W → ℕ → ℕ
  z80_read s r =
      let f = pack_flags s.cc in
      if r == 0
      then word s.a f
      else if r == 1
      then word s.b s.c
      else if r == 2
      then word s.d s.e
      else if r == 3
      then word s.h s.l
      else if r == 4
      then s.sp
      else if r == 5
      then s.pc
      else 0

  unfoldable pub z80_write : State W → ℕ → ℕ → State W
  z80_write s r v =
      if r == 0
      then record s { a = u8 (v / 256); cc = unpack_flags s.cc (u8 v) }
      else if r == 1
      then record s { b = u8 (v / 256); c = u8 v }
      else if r == 2
      then record s { d = u8 (v / 256); e = u8 v }
      else if r == 3
      then record s { h = u8 (v / 256); l = u8 v }
      else if r == 4
      then record s { sp = v }
      else if r == 5
      then record s { pc = v }
      else s

-- `g_gdbZ80` chooses.
module _ (z80 : Bool) where
  unfoldable pub reg_count : ℕ
  reg_count = if z80 then num_z80_regs else num_regs

  unfoldable pub reg_bytes : ℕ → ℕ
  reg_bytes i = if z80 then 2 else reg_size i

  unfoldable pub reg_get : {W : Type 0} → State W → ℕ → ℕ
  reg_get s i = if z80 then z80_read s i else read_reg s i

  unfoldable pub reg_set : {W : Type 0} → State W → ℕ → ℕ → State W
  reg_set s i v = if z80 then z80_write s i v else write_reg s i v

  -- `hex_reg`, the characters that it stores.
  unfoldable pub hex_reg : {W : Type 0} → State W → ℕ → List ℕ
  hex_reg s regnum =
      let val = reg_get s regnum in
      let sz = reg_bytes regnum in
      if sz == 1
      then hex_byte (u8 val)
      else if sz == 2
      then hex_byte (u8 val) ++ hex_byte (u8 (val / 256))
      else []
