-- ===== src/Cpu/Step/Halt.antt =====
-- src/i8085_exec.c, `Emulate8085Op`: the halted CPU.
use tool_i8085_trace.Cpu.Interrupts.Laws.{Request}
use tool_i8085_trace.Prelude.{◌≡◌, ◌≢◌, none, some, arith}
use tool_i8085_trace.Cpu.State.{State, Bus, ExecutionStats}
use tool_i8085_trace.Cpu.Interrupts.Laws.{Request, accepted, served, check_interrupts-served}
use tool_i8085_trace.Cpu.Step.{emulate_op, run_instruction}

module _ {W : Type 0} (bus : Bus W) (s : State W) (stats : ExecutionStats) where
  -- A halted CPU with no request to serve does nothing, and says that it is halted.
  pub emulate_op_idle :
      s.hlt_enable ≢ 0
      → accepted s ≡ none
      → emulate_op bus s stats ≡ record { state = s; stats = stats; halted = 1 }
  unfolding emulate_op
  emulate_op_idle halted quiet = rw (check_interrupts-served bus s, quiet) (ground arith)

  -- Where a request is accepted, and the CPU is halted after its service, the call runs the
  -- instruction at the vector with HLT cleared.
  pub emulate_op_woken :
      (r : Request)
      → accepted s ≡ some r
      → (served bus s (some r)).0.hlt_enable ≢ 0
      → emulate_op bus s stats
        ≡ run_instruction bus (record ((served bus s (some r)).0) { hlt_enable = 0 }) stats
  unfolding emulate_op
  emulate_op_woken r taken halted = rw (check_interrupts-served bus s, taken) (ground arith)
