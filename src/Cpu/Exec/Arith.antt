-- ===== src/Cpu/Exec/Arith.antt =====
-- src/i8085_exec.c, the switch of `Emulate8085Op`: opcodes 0x80 to 0xBF, a row of sixteen to a function.
-- A case gives the new state and its T-states (4 where the source leaves the default); `at` is
-- the address of the opcode, and PC is one past it.
use tool_i8085_trace.Prelude.{ℕ}
use tool_i8085_trace.Prelude.{◌==◌, if◌then◌else◌}
use tool_i8085_trace.Cpu.State.{State, Bus}
use tool_i8085_trace.Cpu.Alu.{}
use tool_i8085_trace.Cpu.Exec.Ops.{
  at_hl, add_to, adc_to, sub_to, sbb_to, compare_with, and_with, xor_with, or_with,
}
use tool_i8085_trace.Cpu.Exec.Special.{}

module _ {W : Type 0} (bus : Bus W) where
  -- ADD and ADC
  unfoldable pub row_8 : State W → ℕ → ℕ → State W × ℕ
  row_8 s at op =
      if op == 0x80
      then add_to s s.b 4
      else if op == 0x81
      then add_to s s.c 4
      else if op == 0x82
      then add_to s s.d 4
      else if op == 0x83
      then add_to s s.e 4
      else if op == 0x84
      then add_to s s.h 4
      else if op == 0x85
      then add_to s s.l 4
      else if op == 0x86
      then add_to s (at_hl s) 7
      else if op == 0x87
      then add_to s s.a 4
      else if op == 0x88
      then adc_to s s.b 4
      else if op == 0x89
      then adc_to s s.c 4
      else if op == 0x8a
      then adc_to s s.d 4
      else if op == 0x8b
      then adc_to s s.e 4
      else if op == 0x8c
      then adc_to s s.h 4
      else if op == 0x8d
      then adc_to s s.l 4
      else if op == 0x8e
      then adc_to s (at_hl s) 7
      else adc_to s s.a 4

  -- SUB and SBB
  unfoldable pub row_9 : State W → ℕ → ℕ → State W × ℕ
  row_9 s at op =
      if op == 0x90
      then sub_to s s.b 4
      else if op == 0x91
      then sub_to s s.c 4
      else if op == 0x92
      then sub_to s s.d 4
      else if op == 0x93
      then sub_to s s.e 4
      else if op == 0x94
      then sub_to s s.h 4
      else if op == 0x95
      then sub_to s s.l 4
      else if op == 0x96
      then sub_to s (at_hl s) 7
      else if op == 0x97
      then sub_to s s.a 4
      else if op == 0x98
      then sbb_to s s.b 4
      else if op == 0x99
      then sbb_to s s.c 4
      else if op == 0x9a
      then sbb_to s s.d 4
      else if op == 0x9b
      then sbb_to s s.e 4
      else if op == 0x9c
      then sbb_to s s.h 4
      else if op == 0x9d
      then sbb_to s s.l 4
      else if op == 0x9e
      then sbb_to s (at_hl s) 7
      else sbb_to s s.a 4

  -- ANA and XRA
  unfoldable pub row_a : State W → ℕ → ℕ → State W × ℕ
  row_a s at op =
      if op == 0xa0
      then and_with s s.b 4
      else if op == 0xa1
      then and_with s s.c 4
      else if op == 0xa2
      then and_with s s.d 4
      else if op == 0xa3
      then and_with s s.e 4
      else if op == 0xa4
      then and_with s s.h 4
      else if op == 0xa5
      then and_with s s.l 4
      else if op == 0xa6
      then and_with s (at_hl s) 7
      else if op == 0xa7
      then and_with s s.a 4
      else if op == 0xa8
      then xor_with s s.b 4
      else if op == 0xa9
      then xor_with s s.c 4
      else if op == 0xaa
      then xor_with s s.d 4
      else if op == 0xab
      then xor_with s s.e 4
      else if op == 0xac
      then xor_with s s.h 4
      else if op == 0xad
      then xor_with s s.l 4
      else if op == 0xae
      then xor_with s (at_hl s) 7
      else xor_with s s.a 4

  -- ORA and CMP
  unfoldable pub row_b : State W → ℕ → ℕ → State W × ℕ
  row_b s at op =
      if op == 0xb0
      then or_with s s.b 4
      else if op == 0xb1
      then or_with s s.c 4
      else if op == 0xb2
      then or_with s s.d 4
      else if op == 0xb3
      then or_with s s.e 4
      else if op == 0xb4
      then or_with s s.h 4
      else if op == 0xb5
      then or_with s s.l 4
      else if op == 0xb6
      then or_with s (at_hl s) 7
      else if op == 0xb7
      then or_with s s.a 4
      else if op == 0xb8
      then compare_with s s.b 4
      else if op == 0xb9
      then compare_with s s.c 4
      else if op == 0xba
      then compare_with s s.d 4
      else if op == 0xbb
      then compare_with s s.e 4
      else if op == 0xbc
      then compare_with s s.h 4
      else if op == 0xbd
      then compare_with s s.l 4
      else if op == 0xbe
      then compare_with s (at_hl s) 7
      else compare_with s s.a 4
