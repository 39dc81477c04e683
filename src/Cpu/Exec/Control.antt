-- ===== src/Cpu/Exec/Control.antt =====
-- src/i8085_exec.c, the switch of `Emulate8085Op`: opcodes 0xC0 to 0xFF, a row of sixteen to a function.
-- A case gives the new state and its T-states (4 where the source leaves the default); `at` is
-- the address of the opcode, and PC is one past it.
use tool_i8085_trace.Prelude.{ℕ, ◌+◌, bit_and, bit_or, bit_xor, true, false}
use tool_i8085_trace.Prelude.{◌==◌, not, if◌then◌else◌, u16, sub16, word}
use tool_i8085_trace.Cpu.State.{State, Bus, store}
use tool_i8085_trace.Cpu.Alu.{
  update_carry, logic_flags_a, add_byte_with_carry, subtract_byte, subtract_byte_with_borrow,
}
use tool_i8085_trace.Cpu.Stack.{mem_wr, call, return_to_caller, rst}
use tool_i8085_trace.Cpu.Exec.Ops.{operand, address, skip, jump_if, call_if, return_if}
use tool_i8085_trace.Cpu.Exec.Special.{pop_psw, push_psw, adi, cpi, xthl}

module _ {W : Type 0} (bus : Bus W) where
  -- RNZ to RST 1
  unfoldable pub row_c : State W → ℕ → ℕ → State W × ℕ
  row_c s at op =
      if op == 0xc0
      then return_if (not s.cc.z) s
      else if op == 0xc1
      then (record s { c = s.memory s.sp; b = s.memory (s.sp + 1); sp = u16 (s.sp + 2) }, 10)
      else if op == 0xc2
      then jump_if (not s.cc.z) s at
      else if op == 0xc3
      then (record s { pc = u16 (address s at) }, 10)
      else if op == 0xc4
      then (if not s.cc.z then call bus s (address s at) else skip s 2, 9)
      else if op == 0xc5
      then (
        let s1 = mem_wr bus s (sub16 s.sp 1) s.b in
            let s2 = mem_wr bus s1 (sub16 s1.sp 2) s1.c in record s2 { sp = sub16 s2.sp 2 },
        13,
      )
      else if op == 0xc6
      then (adi s at, 7)
      else if op == 0xc7
      then (rst bus s 0 0, 12)
      else if op == 0xc8
      then return_if s.cc.z s
      else if op == 0xc9
      then (return_to_caller s, 10)
      else if op == 0xca
      then jump_if s.cc.z s at
      else if op == 0xcb
      then if s.cc.v then (record (rst bus s 0 0) { pc = 0x0040 }, 12) else (s, 6)
      else if op == 0xcc
      then call_if bus s.cc.z s at
      else if op == 0xcd
      then (call bus s (address s at), 18)
      else if op == 0xce
      then (
        let (t, r) = add_byte_with_carry s s.a (operand s at 1) update_carry in
            skip (record t { a = r }) 1,
        7,
      )
      else (rst bus s 1 0, 12)

  -- RNC to RST 3
  unfoldable pub row_d : State W → ℕ → ℕ → State W × ℕ
  row_d s at op =
      if op == 0xd0
      then return_if (not s.cc.cy) s
      else if op == 0xd1
      then (record s { e = s.memory s.sp; d = s.memory (s.sp + 1); sp = u16 (s.sp + 2) }, 10)
      else if op == 0xd2
      then jump_if (not s.cc.cy) s at
      else if op == 0xd3
      then (
        let s1 = skip (record s { io = store s.io (operand s at 1) s.a }) 1 in
            bus.io_write s1 (operand s1 at 1) s1.a,
        10,
      )
      else if op == 0xd4
      then call_if bus (not s.cc.cy) s at
      else if op == 0xd5
      then (
        let s1 = mem_wr bus s (sub16 s.sp 1) s.d in
            let s2 = mem_wr bus s1 (sub16 s1.sp 2) s1.e in record s2 { sp = sub16 s2.sp 2 },
        13,
      )
      else if op == 0xd6
      then (
        let (t, r) = subtract_byte s s.a (operand s at 1) update_carry in
            skip (record t { a = r }) 1,
        7,
      )
      else if op == 0xd7
      then (rst bus s 2 0, 12)
      else if op == 0xd8
      then return_if s.cc.cy s
      else if op == 0xd9
      then (
        let de = word s.d s.e in let s1 = mem_wr bus s de s.l in mem_wr bus s1 (de + 1) s1.h,
        10,
      )
      else if op == 0xda
      then jump_if s.cc.cy s at
      else if op == 0xdb
      then (
        let s1 = bus.io_pre_read s (operand s at 1) in
            let s2 = skip (record s1 { a = s1.io (operand s1 at 1) }) 1 in
            bus.io_read s2 (operand s2 at 1) s2.a,
        10,
      )
      else if op == 0xdc
      then call_if bus s.cc.cy s at
      else if op == 0xdd
      then jump_if (not s.cc.x5) s at
      else if op == 0xde
      then (
        let (t, r) = subtract_byte_with_borrow s s.a (operand s at 1) update_carry in
            skip (record t { a = r }) 1,
        7,
      )
      else (rst bus s 3 0, 12)

  -- RPO to RST 5
  unfoldable pub row_e : State W → ℕ → ℕ → State W × ℕ
  row_e s at op =
      if op == 0xe0
      then return_if (not s.cc.p) s
      else if op == 0xe1
      then (record s { l = s.memory s.sp; h = s.memory (s.sp + 1); sp = u16 (s.sp + 2) }, 10)
      else if op == 0xe2
      then jump_if (not s.cc.p) s at
      else if op == 0xe3
      then (xthl bus s, 16)
      else if op == 0xe4
      then call_if bus (not s.cc.p) s at
      else if op == 0xe5
      then (
        let s1 = mem_wr bus s (sub16 s.sp 1) s.h in
            let s2 = mem_wr bus s1 (sub16 s1.sp 2) s1.l in record s2 { sp = sub16 s2.sp 2 },
        13,
      )
      else if op == 0xe6
      then (skip (logic_flags_a (record s { a = bit_and s.a (operand s at 1) }) true) 1, 7)
      else if op == 0xe7
      then (rst bus s 4 0, 12)
      else if op == 0xe8
      then return_if s.cc.p s
      else if op == 0xe9
      then (record s { pc = u16 (word s.h s.l) }, 6)
      else if op == 0xea
      then jump_if s.cc.p s at
      else if op == 0xeb
      then (record s { d = s.h; e = s.l; h = s.d; l = s.e }, 4)
      else if op == 0xec
      then call_if bus s.cc.p s at
      else if op == 0xed
      then (record s { l = s.memory (word s.d s.e); h = s.memory (word s.d s.e + 1) }, 10)
      else if op == 0xee
      then (skip (logic_flags_a (record s { a = bit_xor s.a (operand s at 1) }) false) 1, 7)
      else (rst bus s 5 0, 12)

  -- RP to RST 7
  unfoldable pub row_f : State W → ℕ → ℕ → State W × ℕ
  row_f s at op =
      if op == 0xf0
      then return_if (not s.cc.s) s
      else if op == 0xf1
      then (pop_psw s, 10)
      else if op == 0xf2
      then jump_if (not s.cc.s) s at
      else if op == 0xf3
      then (record s { int_enable = 0; int_enable_delay = 0 }, 4)
      else if op == 0xf4
      then call_if bus (not s.cc.s) s at
      else if op == 0xf5
      then (push_psw bus s, 13)
      else if op == 0xf6
      then (skip (logic_flags_a (record s { a = bit_or s.a (operand s at 1) }) false) 1, 7)
      else if op == 0xf7
      then (rst bus s 6 0, 12)
      else if op == 0xf8
      then return_if s.cc.s s
      else if op == 0xf9
      then (record s { sp = u16 (word s.h s.l) }, 6)
      else if op == 0xfa
      then jump_if s.cc.s s at
      else if op == 0xfb
      then (record s { int_enable_delay = 2 }, 4)
      else if op == 0xfc
      then call_if bus s.cc.s s at
      else if op == 0xfd
      then jump_if s.cc.x5 s at
      else if op == 0xfe
      then (cpi s at, 7)
      else (rst bus s 7 0, 12)
