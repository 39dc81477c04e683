-- ===== src/Cpu/Exec/Move.antt =====
-- src/i8085_exec.c, the switch of `Emulate8085Op`: opcodes 0x40 to 0x7F, a row of sixteen to a function.
-- A case gives the new state and its T-states (4 where the source leaves the default); `at` is
-- the address of the opcode, and PC is one past it.
use tool_i8085_trace.Prelude.{ℕ}
use tool_i8085_trace.Prelude.{◌==◌, if◌then◌else◌}
use tool_i8085_trace.Cpu.State.{State, Bus}
use tool_i8085_trace.Cpu.Alu.{}
use tool_i8085_trace.Cpu.Exec.Ops.{at_hl, store_hl}
use tool_i8085_trace.Cpu.Exec.Special.{}

module _ {W : Type 0} (bus : Bus W) where
  -- MOV B and MOV C
  unfoldable pub row_4 : State W → ℕ → ℕ → State W × ℕ
  row_4 s at op =
      if op == 0x40
      then (record s { b = s.b }, 4)
      else if op == 0x41
      then (record s { b = s.c }, 4)
      else if op == 0x42
      then (record s { b = s.d }, 4)
      else if op == 0x43
      then (record s { b = s.e }, 4)
      else if op == 0x44
      then (record s { b = s.h }, 4)
      else if op == 0x45
      then (record s { b = s.l }, 4)
      else if op == 0x46
      then (record s { b = at_hl s }, 7)
      else if op == 0x47
      then (record s { b = s.a }, 4)
      else if op == 0x48
      then (record s { c = s.b }, 4)
      else if op == 0x49
      then (record s { c = s.c }, 4)
      else if op == 0x4a
      then (record s { c = s.d }, 4)
      else if op == 0x4b
      then (record s { c = s.e }, 4)
      else if op == 0x4c
      then (record s { c = s.h }, 4)
      else if op == 0x4d
      then (record s { c = s.l }, 4)
      else if op == 0x4e
      then (record s { c = at_hl s }, 7)
      else (record s { c = s.a }, 4)

  -- MOV D and MOV E
  unfoldable pub row_5 : State W → ℕ → ℕ → State W × ℕ
  row_5 s at op =
      if op == 0x50
      then (record s { d = s.b }, 4)
      else if op == 0x51
      then (record s { d = s.c }, 4)
      else if op == 0x52
      then (record s { d = s.d }, 4)
      else if op == 0x53
      then (record s { d = s.e }, 4)
      else if op == 0x54
      then (record s { d = s.h }, 4)
      else if op == 0x55
      then (record s { d = s.l }, 4)
      else if op == 0x56
      then (record s { d = at_hl s }, 7)
      else if op == 0x57
      then (record s { d = s.a }, 4)
      else if op == 0x58
      then (record s { e = s.b }, 4)
      else if op == 0x59
      then (record s { e = s.c }, 4)
      else if op == 0x5a
      then (record s { e = s.d }, 4)
      else if op == 0x5b
      then (record s { e = s.e }, 4)
      else if op == 0x5c
      then (record s { e = s.h }, 4)
      else if op == 0x5d
      then (record s { e = s.l }, 4)
      else if op == 0x5e
      then (record s { e = at_hl s }, 7)
      else (record s { e = s.a }, 4)

  -- MOV H and MOV L
  unfoldable pub row_6 : State W → ℕ → ℕ → State W × ℕ
  row_6 s at op =
      if op == 0x60
      then (record s { h = s.b }, 4)
      else if op == 0x61
      then (record s { h = s.c }, 4)
      else if op == 0x62
      then (record s { h = s.d }, 4)
      else if op == 0x63
      then (record s { h = s.e }, 4)
      else if op == 0x64
      then (record s { h = s.h }, 4)
      else if op == 0x65
      then (record s { h = s.l }, 4)
      else if op == 0x66
      then (record s { h = at_hl s }, 7)
      else if op == 0x67
      then (record s { h = s.a }, 4)
      else if op == 0x68
      then (record s { l = s.b }, 4)
      else if op == 0x69
      then (record s { l = s.c }, 4)
      else if op == 0x6a
      then (record s { l = s.d }, 4)
      else if op == 0x6b
      then (record s { l = s.e }, 4)
      else if op == 0x6c
      then (record s { l = s.h }, 4)
      else if op == 0x6d
      then (record s { l = s.l }, 4)
      else if op == 0x6e
      then (record s { l = at_hl s }, 7)
      else (record s { l = s.a }, 4)

  -- MOV M, HLT and MOV A
  unfoldable pub row_7 : State W → ℕ → ℕ → State W × ℕ
  row_7 s at op =
      if op == 0x70
      then (store_hl bus s s.b, 7)
      else if op == 0x71
      then (store_hl bus s s.c, 7)
      else if op == 0x72
      then (store_hl bus s s.d, 7)
      else if op == 0x73
      then (store_hl bus s s.e, 7)
      else if op == 0x74
      then (store_hl bus s s.h, 7)
      else if op == 0x75
      then (store_hl bus s s.l, 7)
      else if op == 0x76
      then (record s { hlt_enable = 1 }, 5)
      else if op == 0x77
      then (store_hl bus s s.a, 7)
      else if op == 0x78
      then (record s { a = s.b }, 4)
      else if op == 0x79
      then (record s { a = s.c }, 4)
      else if op == 0x7a
      then (record s { a = s.d }, 4)
      else if op == 0x7b
      then (record s { a = s.e }, 4)
      else if op == 0x7c
      then (record s { a = s.h }, 4)
      else if op == 0x7d
      then (record s { a = s.l }, 4)
      else if op == 0x7e
      then (record s { a = at_hl s }, 7)
      else (record s { a = s.a }, 4)
