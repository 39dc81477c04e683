-- ===== src/Cpu/Step.antt =====
-- src/i8085_exec.c: `Emulate8085Op`, one instruction with its interrupt check and its counters.
pub mod States
pub mod Enable
pub mod Halt
use tool_i8085_trace.Prelude.{
  ℕ, ◌+◌, ◌-◌, Bool, true, ◌==◌, ◌!=◌, ltb, not, ◌&&◌, ◌||◌, if◌then◌else◌, u16, u64,
}
use tool_i8085_trace.Cpu.State.{State, ExecutionStats, Bus}
use tool_i8085_trace.Cpu.Interrupts.{check_interrupts}
use tool_i8085_trace.Cpu.Exec.Load.{row_0, row_1, row_2, row_3}
use tool_i8085_trace.Cpu.Exec.Move.{row_4, row_5, row_6, row_7}
use tool_i8085_trace.Cpu.Exec.Arith.{row_8, row_9, row_a, row_b}
use tool_i8085_trace.Cpu.Exec.Control.{row_c, row_d, row_e, row_f}

-- What a call leaves: the state, the counters, and 1 for a halted CPU.
pub record Stepped (W : Type 0) : Type 0 where
  pub state : State W
  pub stats : ExecutionStats
  pub halted : ℕ

module _ {W : Type 0} (bus : Bus W) where
  -- The switch on the opcode, by its high digit.
  unfoldable pub execute : State W → ℕ → ℕ → State W × ℕ
  execute s at op =
      if ltb op 0x10
      then row_0 bus s at op
      else if ltb op 0x20
      then row_1 bus s at op
      else if ltb op 0x30
      then row_2 bus s at op
      else if ltb op 0x40
      then row_3 bus s at op
      else if ltb op 0x50
      then row_4 bus s at op
      else if ltb op 0x60
      then row_5 bus s at op
      else if ltb op 0x70
      then row_6 bus s at op
      else if ltb op 0x80
      then row_7 bus s at op
      else if ltb op 0x90
      then row_8 bus s at op
      else if ltb op 0xa0
      then row_9 bus s at op
      else if ltb op 0xb0
      then row_a bus s at op
      else if ltb op 0xc0
      then row_b bus s at op
      else if ltb op 0xd0
      then row_c bus s at op
      else if ltb op 0xe0
      then row_d bus s at op
      else if ltb op 0xf0
      then row_e bus s at op
      else row_f bus s at op

  -- Fetch and execute; PC moves on before the switch.
  unfoldable pub fetch_execute : State W → State W × ℕ
  fetch_execute s = execute (record s { pc = u16 (s.pc + 1) }) s.pc (s.memory s.pc)

  -- The lowest stack pointer and the T-states so far.
  unfoldable pub count : State W → ExecutionStats → ℕ → ExecutionStats
  count s stats states =
      let low : Bool = not stats.min_sp_set || ltb s.sp stats.min_sp in
      record {
        total_tstates = u64 (stats.total_tstates + states);
        min_sp = if low then s.sp else stats.min_sp;
        min_sp_set = if low then true else stats.min_sp_set;
      }

  -- EI takes effect one instruction late.
  unfoldable pub tick_int_enable : State W → State W
  tick_int_enable s =
      if ltb 0 s.int_enable_delay
      then record s {
        int_enable_delay = s.int_enable_delay - 1;
        int_enable = if s.int_enable_delay - 1 == 0 then 1 else s.int_enable;
      }
      else s

  unfoldable pub run_instruction : State W → ExecutionStats → Stepped W
  run_instruction s stats =
      let (t, states) = fetch_execute s in
      let u = tick_int_enable t in
      record {
        state = u;
        stats = count t stats states;
        halted = if u.hlt_enable != 0 then 1 else 0;
      }

  unfoldable pub emulate_op : State W → ExecutionStats → Stepped W
  emulate_op s stats =
      let (s1, interrupt_taken) = check_interrupts bus s in
      if s1.hlt_enable != 0 && not interrupt_taken
      then record { state = s1; stats = stats; halted = 1 }
      else run_instruction (if s1.hlt_enable != 0 then record s1 { hlt_enable = 0 } else s1) stats
