-- ===== src/Cpu/Step/Enable.antt =====
-- src/i8085_exec.c, `Emulate8085Op`: EI and the instruction behind it.
use tool_i8085_trace.Prelude.{◌+◌, ◌≡◌, none, arith, u16, word}
use tool_i8085_trace.Cpu.State.{State, Bus, ExecutionStats}
use tool_i8085_trace.Cpu.Interrupts.Laws.{accepted, check_interrupts-served}
use tool_i8085_trace.Cpu.Stack.{return_to_caller}
use tool_i8085_trace.Cpu.Exec.Control.{row_c, row_f}
use tool_i8085_trace.Cpu.Step.{emulate_op, run_instruction, fetch_execute, tick_int_enable, execute}

-- A running CPU with no request to serve goes on to its next instruction.
emulate_op_running :
    {W : Type 0} (bus : Bus W) (s : State W) (stats : ExecutionStats)
    → s.hlt_enable ≡ 0
    → accepted s ≡ none
    → emulate_op bus s stats ≡ run_instruction bus s stats
unfolding emulate_op
emulate_op_running bus s stats h q = rw (check_interrupts-served bus s, q) (ground arith)

-- With interrupts off and no TRAP there is none to serve.
accepted_off :
    {W : Type 0} (s : State W) → s.int_enable ≡ 0 → s.pending_trap ≡ 0 → accepted s ≡ none
accepted_off s i t = ground arith

after_ei :
    {W : Type 0} (bus : Bus W) (s : State W) (stats : ExecutionStats)
    → s.memory s.pc ≡ 0xfb
    → s.hlt_enable ≡ 0
    → s.int_enable ≡ 0
    → s.pending_trap ≡ 0
    → (emulate_op bus s stats).state ≡ record s { pc = u16 (s.pc + 1); int_enable_delay = 1 }
unfolding run_instruction fetch_execute tick_int_enable execute row_f
after_ei bus s stats m h i t = ground (arith, emulate_op_running bus s stats h (accepted_off s i t))

-- EI and then RET, on a running CPU with interrupts off and no TRAP pending: whatever maskable
-- requests there are, none is served before RET is done. The two calls leave the CPU at the return
-- address, SP past it and interrupts on, and change nothing else.
pub ei-ret :
    {W : Type 0} (bus : Bus W) (s : State W) (stats stats' : ExecutionStats)
    → s.memory s.pc ≡ 0xfb
    → s.memory (u16 (s.pc + 1)) ≡ 0xc9
    → s.hlt_enable ≡ 0
    → s.int_enable ≡ 0
    → s.pending_trap ≡ 0
    → (emulate_op bus (emulate_op bus s stats).state stats').state ≡ record s {
      pc = u16 (word (s.memory (s.sp + 1)) (s.memory s.sp));
      sp = u16 (s.sp + 2);
      int_enable = 1;
      int_enable_delay = 0;
    }
unfolding run_instruction fetch_execute tick_int_enable execute row_c return_to_caller
ei-ret bus s stats stats' m r h i t =
    let u = record s { pc = u16 (s.pc + 1); int_enable_delay = 1 } in
    rw (after_ei bus s stats m h i t, emulate_op_running bus u stats' h (accepted_off u i t))
      (ground arith)
