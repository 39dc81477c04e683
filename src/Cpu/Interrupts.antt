-- ===== src/Cpu/Interrupts.antt =====
-- src/i8085_exec.c: `checkInterrupts`, highest priority first.
pub mod Laws
use tool_i8085_trace.Prelude.{Bool, true, false, ◌==◌, ◌!=◌, ◌&&◌, if◌then◌else◌}
use tool_i8085_trace.Cpu.State.{State, Bus}
use tool_i8085_trace.Cpu.Stack.{rst}

module _ {W : Type 0} where
  unfoldable pub check_interrupts : Bus W → State W → State W × Bool
  check_interrupts bus s =
      if s.pending_trap != 0
      then (rst bus (record s { pending_trap = 0; int_enable = 0 }) 4 1, true)
      else if s.int_enable == 0
      then (s, false)
      else if s.r7_latch != 0 && s.r7_mask == 0
      then (rst bus (record s { r7_latch = 0; int_enable = 0 }) 7 1, true)
      else if s.pending_r6 != 0 && s.r6_mask == 0
      then (rst bus (record s { pending_r6 = 0; int_enable = 0 }) 6 1, true)
      else if s.pending_r5 != 0 && s.r5_mask == 0
      then (rst bus (record s { pending_r5 = 0; int_enable = 0 }) 5 1, true)
      else if s.pending_int != 0
      then (rst bus (record s { pending_int = 0; int_enable = 0 }) s.int_rst_number 0, true)
      else (s, false)
