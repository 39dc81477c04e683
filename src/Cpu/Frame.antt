-- ===== src/Cpu/Frame.antt =====
-- src/i8085_exec.c: what an instruction can change of memory and of the hooks' own state. Every
-- store of the core goes through `mem_wr`.
use tool_i8085_trace.Prelude.{ℕ, ◌≡◌, refl, arith}
use tool_i8085_trace.Cpu.State.{State, ExecutionStats, Bus}
use tool_i8085_trace.Cpu.Alu.{
  add_byte, add_byte_with_carry, subtract_byte, subtract_byte_with_borrow, arith_flags_a,
  logic_flags_a,
}
use tool_i8085_trace.Cpu.Stack.{mem_wr, push_word, call, return_to_caller, rst}
use tool_i8085_trace.Cpu.Interrupts.{check_interrupts}
use tool_i8085_trace.Cpu.Exec.Ops.{
  dad, jump_if, call_if, return_if, store_hl, add_to, adc_to, sub_to, sbb_to, and_with, xor_with,
  or_with, compare_with,
}
use tool_i8085_trace.Cpu.Exec.Special.{
  rlc, rrc, ral, rar, dsub, arhl, rdel, rim, daa, sim, pop_psw, push_psw, adi, cpi, xthl,
}
use tool_i8085_trace.Cpu.Exec.Load.{row_0, row_1, row_2, row_3}
use tool_i8085_trace.Cpu.Exec.Move.{row_4, row_5, row_6, row_7}
use tool_i8085_trace.Cpu.Exec.Arith.{row_8, row_9, row_a, row_b}
use tool_i8085_trace.Cpu.Exec.Control.{row_c, row_d, row_e, row_f}
use tool_i8085_trace.Cpu.Step.{execute, fetch_execute, run_instruction, tick_int_enable, emulate_op}

-- What is observed of memory and of the hooks' own state.
abbrev pub seen : {W X : Type 0} → ((ℕ → ℕ) → W → X) → State W → X
seen obs s = obs s.memory s.world

-- No hook changes what is observed.
pub record Keeps {W X : Type 0} (bus : Bus W) (obs : (ℕ → ℕ) → W → X) : Type 0 where
  pub on_mem_wr : (s : State W) (a v : ℕ) → seen obs (mem_wr bus s a v) ≡ seen obs s
  pub on_io_write : (s : State W) (a v : ℕ) → seen obs (bus.io_write s a v) ≡ seen obs s
  pub on_io_pre_read : (s : State W) (a : ℕ) → seen obs (bus.io_pre_read s a) ≡ seen obs s
  pub on_io_read : (s : State W) (a v : ℕ) → seen obs (bus.io_read s a v) ≡ seen obs s

module _ {W X : Type 0} (bus : Bus W) (obs : (ℕ → ℕ) → W → X)
    (keep_wr : (s : State W) (a v : ℕ) → seen obs (mem_wr bus s a v) ≡ seen obs s)
    (keep_out : (s : State W) (a v : ℕ) → seen obs (bus.io_write s a v) ≡ seen obs s)
    (keep_pre : (s : State W) (a : ℕ) → seen obs (bus.io_pre_read s a) ≡ seen obs s)
    (keep_in : (s : State W) (a v : ℕ) → seen obs (bus.io_read s a v) ≡ seen obs s) where
  row_0-seen : (s : State W) (at op : ℕ) → seen obs (row_0 bus s at op).0 ≡ seen obs s
  unfolding row_0 dad rlc rrc dsub add_byte subtract_byte arith_flags_a
  row_0-seen s at op = grind (arith, keep_wr)

  row_1-seen : (s : State W) (at op : ℕ) → seen obs (row_1 bus s at op).0 ≡ seen obs s
  unfolding row_1 dad arhl rdel ral rar add_byte subtract_byte arith_flags_a
  row_1-seen s at op = grind (arith, keep_wr)

  row_2-seen : (s : State W) (at op : ℕ) → seen obs (row_2 bus s at op).0 ≡ seen obs s
  unfolding row_2 dad rim daa add_byte subtract_byte arith_flags_a
  row_2-seen s at op = grind (arith, keep_wr)

  sim-seen : (s : State W) → seen obs (sim s) ≡ seen obs s
  unfolding sim
  sim-seen s = ground arith

  row_3-seen : (s : State W) (at op : ℕ) → seen obs (row_3 bus s at op).0 ≡ seen obs s
  unfolding row_3 dad add_byte subtract_byte arith_flags_a
  row_3-seen s at op = grind (arith, keep_wr, sim-seen)

  row_4-seen : (s : State W) (at op : ℕ) → seen obs (row_4 bus s at op).0 ≡ seen obs s
  unfolding row_4
  row_4-seen s at op = ground arith

  row_5-seen : (s : State W) (at op : ℕ) → seen obs (row_5 bus s at op).0 ≡ seen obs s
  unfolding row_5
  row_5-seen s at op = ground arith

  row_6-seen : (s : State W) (at op : ℕ) → seen obs (row_6 bus s at op).0 ≡ seen obs s
  unfolding row_6
  row_6-seen s at op = ground arith

  row_7-seen : (s : State W) (at op : ℕ) → seen obs (row_7 bus s at op).0 ≡ seen obs s
  unfolding row_7 store_hl
  row_7-seen s at op = grind (arith, keep_wr)

  add_to-seen : (s : State W) (y n : ℕ) → seen obs (add_to s y n).0 ≡ seen obs s
  unfolding add_to add_byte arith_flags_a
  add_to-seen s y n = refl

  adc_to-seen : (s : State W) (y n : ℕ) → seen obs (adc_to s y n).0 ≡ seen obs s
  unfolding adc_to add_byte_with_carry arith_flags_a
  adc_to-seen s y n = refl

  sub_to-seen : (s : State W) (y n : ℕ) → seen obs (sub_to s y n).0 ≡ seen obs s
  unfolding sub_to subtract_byte arith_flags_a
  sub_to-seen s y n = refl

  sbb_to-seen : (s : State W) (y n : ℕ) → seen obs (sbb_to s y n).0 ≡ seen obs s
  unfolding sbb_to subtract_byte_with_borrow arith_flags_a
  sbb_to-seen s y n = refl

  row_8-seen : (s : State W) (at op : ℕ) → seen obs (row_8 bus s at op).0 ≡ seen obs s
  unfolding row_8
  row_8-seen s at op = grind (arith, add_to-seen, adc_to-seen)

  row_9-seen : (s : State W) (at op : ℕ) → seen obs (row_9 bus s at op).0 ≡ seen obs s
  unfolding row_9
  row_9-seen s at op = grind (arith, sub_to-seen, sbb_to-seen)

  row_a-seen : (s : State W) (at op : ℕ) → seen obs (row_a bus s at op).0 ≡ seen obs s
  unfolding row_a and_with xor_with logic_flags_a
  row_a-seen s at op = ground arith

  row_b-seen : (s : State W) (at op : ℕ) → seen obs (row_b bus s at op).0 ≡ seen obs s
  unfolding row_b or_with compare_with logic_flags_a subtract_byte arith_flags_a
  row_b-seen s at op = ground arith

  row_c-seen : (s : State W) (at op : ℕ) → seen obs (row_c bus s at op).0 ≡ seen obs s
  unfolding row_c jump_if call_if return_if call rst push_word return_to_caller adi
      add_byte_with_carry arith_flags_a
  row_c-seen s at op = grind (arith, keep_wr)

  row_d-seen : (s : State W) (at op : ℕ) → seen obs (row_d bus s at op).0 ≡ seen obs s
  unfolding row_d jump_if call_if return_if call rst push_word return_to_caller subtract_byte
      subtract_byte_with_borrow arith_flags_a
  row_d-seen s at op = grind (arith, keep_wr, keep_out, keep_pre, keep_in)

  row_e-seen : (s : State W) (at op : ℕ) → seen obs (row_e bus s at op).0 ≡ seen obs s
  unfolding row_e jump_if call_if return_if call rst push_word return_to_caller xthl logic_flags_a
  row_e-seen s at op = grind (arith, keep_wr)

  row_f-seen : (s : State W) (at op : ℕ) → seen obs (row_f bus s at op).0 ≡ seen obs s
  unfolding row_f jump_if call_if return_if call rst push_word return_to_caller pop_psw push_psw cpi
      logic_flags_a
  row_f-seen s at op = grind (arith, keep_wr)

  execute-seen : (s : State W) (at op : ℕ) → seen obs (execute bus s at op).0 ≡ seen obs s
  unfolding execute
  execute-seen s at op = ground (
    arith,
    row_0-seen s at op,
    row_1-seen s at op,
    row_2-seen s at op,
    row_3-seen s at op,
    row_4-seen s at op,
    row_5-seen s at op,
    row_6-seen s at op,
    row_7-seen s at op,
    row_8-seen s at op,
    row_9-seen s at op,
    row_a-seen s at op,
    row_b-seen s at op,
    row_c-seen s at op,
    row_d-seen s at op,
    row_e-seen s at op,
    row_f-seen s at op,
  )

  check_interrupts-seen : (s : State W) → seen obs (check_interrupts bus s).0 ≡ seen obs s
  unfolding check_interrupts rst push_word
  check_interrupts-seen s = grind (arith, keep_wr)

  run_instruction-seen :
      (s : State W) (stats : ExecutionStats)
      → seen obs (run_instruction bus s stats).state ≡ seen obs s
  unfolding run_instruction fetch_execute tick_int_enable
  run_instruction-seen s stats = grind (arith, execute-seen)

  emulate_op-seen :
      (s : State W) (stats : ExecutionStats) → seen obs (emulate_op bus s stats).state ≡ seen obs s
  unfolding emulate_op
  emulate_op-seen s stats = grind (arith, run_instruction-seen, check_interrupts-seen)

-- What none of the four hooks changes of memory and of the hooks' own state, no call of
-- `Emulate8085Op` changes, whatever the opcode and whether or not an interrupt is taken.
pub emulate_op-Keeps :
    {W X : Type 0} (bus : Bus W) (obs : (ℕ → ℕ) → W → X)
    → Keeps bus obs
    → (s : State W) (stats : ExecutionStats) → seen obs (emulate_op bus s stats).state ≡ seen obs s
emulate_op-Keeps bus obs k s stats =
    emulate_op-seen bus obs k.on_mem_wr k.on_io_write k.on_io_pre_read k.on_io_read s stats
