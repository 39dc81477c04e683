-- ===== src/Cpu/Step/States.antt =====
-- src/i8085_exec.c, `Emulate8085Op`: the T-states of an instruction, opcode by opcode.
use tool_i8085_trace.Prelude.{ℕ, ◌≤◌, arith}
use tool_i8085_trace.Cpu.State.{State, Bus}
use tool_i8085_trace.Cpu.Exec.Load.{row_0, row_1, row_2, row_3}
use tool_i8085_trace.Cpu.Exec.Move.{row_4, row_5, row_6, row_7}
use tool_i8085_trace.Cpu.Exec.Arith.{row_8, row_9, row_a, row_b}
use tool_i8085_trace.Cpu.Exec.Control.{row_c, row_d, row_e, row_f}
use tool_i8085_trace.Cpu.Exec.Ops.{
  dad, jump_if, call_if, return_if, add_to, adc_to, sub_to, sbb_to, and_with, xor_with, or_with,
  compare_with,
}
use tool_i8085_trace.Cpu.Step.{execute}

-- From 4, for a NOP, to 18, for a call.
abbrev pub InRange : ℕ → Type 0
InRange n = (4 ≤ n) × (n ≤ 18)

module _ {W : Type 0} (bus : Bus W) (s : State W) (at op : ℕ) where
  row_0_states : InRange (row_0 bus s at op).1
  unfolding row_0 dad
  row_0_states = ground arith

  row_1_states : InRange (row_1 bus s at op).1
  unfolding row_1 dad
  row_1_states = ground arith

  row_2_states : InRange (row_2 bus s at op).1
  unfolding row_2 dad
  row_2_states = ground arith

  row_3_states : InRange (row_3 bus s at op).1
  unfolding row_3 dad
  row_3_states = ground arith

  row_4_states : InRange (row_4 bus s at op).1
  unfolding row_4
  row_4_states = ground arith

  row_5_states : InRange (row_5 bus s at op).1
  unfolding row_5
  row_5_states = ground arith

  row_6_states : InRange (row_6 bus s at op).1
  unfolding row_6
  row_6_states = ground arith

  row_7_states : InRange (row_7 bus s at op).1
  unfolding row_7
  row_7_states = ground arith

  row_8_states : InRange (row_8 bus s at op).1
  unfolding row_8 add_to adc_to
  row_8_states = ground arith

  row_9_states : InRange (row_9 bus s at op).1
  unfolding row_9 sub_to sbb_to
  row_9_states = ground arith

  row_a_states : InRange (row_a bus s at op).1
  unfolding row_a and_with xor_with
  row_a_states = ground arith

  row_b_states : InRange (row_b bus s at op).1
  unfolding row_b or_with compare_with
  row_b_states = ground arith

  row_c_states : InRange (row_c bus s at op).1
  unfolding row_c jump_if call_if return_if
  row_c_states = ground arith

  row_d_states : InRange (row_d bus s at op).1
  unfolding row_d jump_if call_if return_if
  row_d_states = ground arith

  row_e_states : InRange (row_e bus s at op).1
  unfolding row_e jump_if call_if return_if
  row_e_states = ground arith

  row_f_states : InRange (row_f bus s at op).1
  unfolding row_f jump_if call_if return_if
  row_f_states = ground arith

  -- Every opcode takes from 4 to 18 T-states, on each branch.
  pub execute_states : InRange (execute bus s at op).1
  unfolding execute
  execute_states = ground (
    arith, row_0_states, row_1_states, row_2_states, row_3_states, row_4_states, row_5_states,
    row_6_states, row_7_states, row_8_states, row_9_states, row_a_states, row_b_states,
    row_c_states, row_d_states, row_e_states, row_f_states,
  )
