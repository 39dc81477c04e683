-- ===== src/Cpu/Exec/Load.antt =====
-- src/i8085_exec.c, the switch of `Emulate8085Op`: opcodes 0x00 to 0x3F, a row of sixteen to a function.
-- A case gives the new state and its T-states (4 where the source leaves the default); `at` is
-- the address of the opcode, and PC is one past it.
use tool_i8085_trace.Prelude.{ℕ, ◌+◌, ◌*◌, ◌/◌, ◌%◌, bit_xor, true}
use tool_i8085_trace.Prelude.{◌==◌, not, if◌then◌else◌, u16, sub16, word}
use tool_i8085_trace.Cpu.State.{State, Bus}
use tool_i8085_trace.Cpu.Alu.{preserve_carry, add_byte, subtract_byte}
use tool_i8085_trace.Cpu.Stack.{mem_wr}
use tool_i8085_trace.Cpu.Exec.Ops.{operand, address, skip, at_hl, inx, dcx, dad}
use tool_i8085_trace.Cpu.Exec.Special.{dsub, arhl, rdel, rim, daa, sim, rlc, rrc, ral, rar}

module _ {W : Type 0} (bus : Bus W) where
  -- NOP to RRC
  unfoldable pub row_0 : State W → ℕ → ℕ → State W × ℕ
  row_0 s at op =
      if op == 0x00
      then (s, 4)
      else if op == 0x01
      then (skip (record s { c = operand s at 1; b = operand s at 2 }) 2, 4)
      else if op == 0x02
      then (mem_wr bus s (word s.b s.c) s.a, 7)
      else if op == 0x03
      then (
        let p = inx s.b s.c in
            record s { b = p.hi; c = p.lo; cc = record (s.cc) { x5 = p.wrapped } },
        6,
      )
      else if op == 0x04
      then (let (t, r) = add_byte s s.b 1 preserve_carry in record t { b = r }, 4)
      else if op == 0x05
      then (let (t, r) = subtract_byte s s.b 1 preserve_carry in record t { b = r }, 4)
      else if op == 0x06
      then (skip (record s { b = operand s at 1 }) 1, 10)
      else if op == 0x07
      then (rlc s, 4)
      else if op == 0x08
      then (dsub s, 10)
      else if op == 0x09
      then dad s (word s.b s.c)
      else if op == 0x0a
      then (record s { a = s.memory (word s.b s.c) }, 7)
      else if op == 0x0b
      then (
        let p = dcx s.b s.c in
            record s { b = p.hi; c = p.lo; cc = record (s.cc) { x5 = p.wrapped } },
        6,
      )
      else if op == 0x0c
      then (let (t, r) = add_byte s s.c 1 preserve_carry in record t { c = r }, 4)
      else if op == 0x0d
      then (let (t, r) = subtract_byte s s.c 1 preserve_carry in record t { c = r }, 4)
      else if op == 0x0e
      then (skip (record s { c = operand s at 1 }) 1, 10)
      else (rrc s, 4)

  -- ARHL to RAR
  unfoldable pub row_1 : State W → ℕ → ℕ → State W × ℕ
  row_1 s at op =
      if op == 0x10
      then (arhl s, 7)
      else if op == 0x11
      then (skip (record s { e = operand s at 1; d = operand s at 2 }) 2, 4)
      else if op == 0x12
      then (mem_wr bus s (s.d * 256 + s.e) s.a, 7)
      else if op == 0x13
      then (
        let p = inx s.d s.e in
            record s { d = p.hi; e = p.lo; cc = record (s.cc) { x5 = p.wrapped } },
        6,
      )
      else if op == 0x14
      then (let (t, r) = add_byte s s.d 1 preserve_carry in record t { d = r }, 4)
      else if op == 0x15
      then (let (t, r) = subtract_byte s s.d 1 preserve_carry in record t { d = r }, 4)
      else if op == 0x16
      then (skip (record s { d = operand s at 1 }) 1, 10)
      else if op == 0x17
      then (ral s, 4)
      else if op == 0x18
      then (rdel s, 10)
      else if op == 0x19
      then dad s (word s.d s.e)
      else if op == 0x1a
      then (record s { a = s.memory (word s.d s.e) }, 7)
      else if op == 0x1b
      then (
        let p = dcx s.d s.e in
            record s { d = p.hi; e = p.lo; cc = record (s.cc) { x5 = p.wrapped } },
        6,
      )
      else if op == 0x1c
      then (let (t, r) = add_byte s s.e 1 preserve_carry in record t { e = r }, 4)
      else if op == 0x1d
      then (let (t, r) = subtract_byte s s.e 1 preserve_carry in record t { e = r }, 4)
      else if op == 0x1e
      then (skip (record s { e = operand s at 1 }) 1, 10)
      else (rar s, 4)

  -- RIM to CMA
  unfoldable pub row_2 : State W → ℕ → ℕ → State W × ℕ
  row_2 s at op =
      if op == 0x20
      then (rim s, 4)
      else if op == 0x21
      then (skip (record s { l = operand s at 1; h = operand s at 2 }) 2, 4)
      else if op == 0x22
      then (
        let offset = address s at in
            let s1 = mem_wr bus s offset s.l in skip (mem_wr bus s1 (offset + 1) s1.h) 2,
        16,
      )
      else if op == 0x23
      then (
        let p = inx s.h s.l in
            record s { h = p.hi; l = p.lo; cc = record (s.cc) { x5 = p.wrapped } },
        6,
      )
      else if op == 0x24
      then (let (t, r) = add_byte s s.h 1 preserve_carry in record t { h = r }, 4)
      else if op == 0x25
      then (let (t, r) = subtract_byte s s.h 1 preserve_carry in record t { h = r }, 4)
      else if op == 0x26
      then (skip (record s { h = operand s at 1 }) 1, 10)
      else if op == 0x27
      then (daa s, 4)
      else if op == 0x28
      then (
        let result = u16 (word s.h s.l + operand s at 1) in
            skip (record s { d = result / 256 % 256; e = result % 256 }) 1,
        10,
      )
      else if op == 0x29
      then dad s (word s.h s.l)
      else if op == 0x2a
      then (skip (record s { l = s.memory (address s at); h = s.memory (address s at + 1) }) 2, 16)
      else if op == 0x2b
      then (
        let p = dcx s.h s.l in
            record s { h = p.hi; l = p.lo; cc = record (s.cc) { x5 = p.wrapped } },
        6,
      )
      else if op == 0x2c
      then (let (t, r) = add_byte s s.l 1 preserve_carry in record t { l = r }, 4)
      else if op == 0x2d
      then (let (t, r) = subtract_byte s s.l 1 preserve_carry in record t { l = r }, 4)
      else if op == 0x2e
      then (skip (record s { l = operand s at 1 }) 1, 10)
      else (record s { a = bit_xor s.a 0xff }, 4)

  -- SIM to CMC
  unfoldable pub row_3 : State W → ℕ → ℕ → State W × ℕ
  row_3 s at op =
      if op == 0x30
      then (sim s, 4)
      else if op == 0x31
      then (skip (record s { sp = u16 (address s at) }) 2, 10)
      else if op == 0x32
      then (skip (mem_wr bus s (address s at) s.a) 2, 13)
      else if op == 0x33
      then (let sp = u16 (s.sp + 1) in record s { sp = sp; cc = record (s.cc) { x5 = sp == 0 } }, 6)
      else if op == 0x34
      then (let (t, r) = add_byte s (at_hl s) 1 preserve_carry in mem_wr bus t (word s.h s.l) r, 10)
      else if op == 0x35
      then (
        let (t, r) = subtract_byte s (at_hl s) 1 preserve_carry in mem_wr bus t (word s.h s.l) r,
        10,
      )
      else if op == 0x36
      then (skip (mem_wr bus s (word s.h s.l) (operand s at 1)) 1, 10)
      else if op == 0x37
      then (record s { cc = record (s.cc) { cy = true } }, 4)
      else if op == 0x38
      then (
        let result = u16 (s.sp + operand s at 1) in
            skip (record s { d = result / 256 % 256; e = result % 256 }) 1,
        10,
      )
      else if op == 0x39
      then dad s s.sp
      else if op == 0x3a
      then (skip (record s { a = s.memory (address s at) }) 2, 13)
      else if op == 0x3b
      then (
        let sp = sub16 s.sp 1 in record s { sp = sp; cc = record (s.cc) { x5 = sp == 0xffff } },
        6,
      )
      else if op == 0x3c
      then (let (t, r) = add_byte s s.a 1 preserve_carry in record t { a = r }, 4)
      else if op == 0x3d
      then (let (t, r) = subtract_byte s s.a 1 preserve_carry in record t { a = r }, 4)
      else if op == 0x3e
      then (skip (record s { a = operand s at 1 }) 1, 10)
      else (record s { cc = record (s.cc) { cy = not s.cc.cy } }, 4)
