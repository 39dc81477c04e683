-- ===== src/Cpu/Interrupts/Laws.antt =====
-- src/i8085_exec.c, `checkInterrupts` against the 8085's interrupt system: five requests in order
-- of priority, each with its mask, its acknowledge and its vector.
use tool_i8085_trace.Cpu.Stack.{push_word}
use tool_i8085_trace.Prelude.{
  ℕ, ◌*◌, ◌/◌, ◌%◌, ◌≡◌, Bool, true, false, ◌&&◌, Option, none, some, List, [], ◌∷◌, arith, ◌==◌,
  ◌!=◌, if◌then◌else◌, u16,
}
use tool_i8085_trace.Cpu.Interrupts.{◌==◌}
use tool_i8085_trace.Cpu.Interrupts.{◌&&◌}
use tool_i8085_trace.Cpu.Interrupts.{true}
use tool_i8085_trace.Cpu.Interrupts.{◌!=◌}
use tool_i8085_trace.Cpu.Interrupts.{Bool}
use tool_i8085_trace.Cpu.State.{State, Bus}
use tool_i8085_trace.Cpu.Interrupts.{check_interrupts}
use tool_i8085_trace.Cpu.Stack.{rst}

pub data Request : Type 0 where
  trap rst75 rst65 rst55 intr : Request

-- Highest first.
abbrev priorities : List Request
priorities = trap ∷ rst75 ∷ rst65 ∷ rst55 ∷ intr ∷ []

module _ {W : Type 0} where
  -- The request is pending.
  abbrev pub requested : Request → State W → Bool
  requested trap s = s.pending_trap != 0
  requested rst75 s = s.r7_latch != 0
  requested rst65 s = s.pending_r6 != 0
  requested rst55 s = s.pending_r5 != 0
  requested intr s = s.pending_int != 0

  -- TRAP cannot be turned off; RST 7.5 to 5.5 have a mask each.
  abbrev pub permitted : Request → State W → Bool
  permitted trap s = true
  permitted rst75 s = s.int_enable != 0 && s.r7_mask == 0
  permitted rst65 s = s.int_enable != 0 && s.r6_mask == 0
  permitted rst55 s = s.int_enable != 0 && s.r5_mask == 0
  permitted intr s = s.int_enable != 0

  abbrev pub acknowledged : Request → State W → State W
  acknowledged trap s = record s { pending_trap = 0 }
  acknowledged rst75 s = record s { r7_latch = 0 }
  acknowledged rst65 s = record s { pending_r6 = 0 }
  acknowledged rst55 s = record s { pending_r5 = 0 }
  acknowledged intr s = record s { pending_int = 0 }

  abbrev pub vector : Request → State W → ℕ
  vector trap s = 0x24
  vector rst75 s = 0x3c
  vector rst65 s = 0x34
  vector rst55 s = 0x2c
  vector intr s = u16 (s.int_rst_number * 8)

  -- The first of the list that is pending and permitted.
  abbrev pub first_of_list : List Request → State W → Option Request
  first_of_list [] s = none
  first_of_list (r ∷ rs) s = if requested r s && permitted r s then some r else first_of_list rs s

  abbrev pub accepted : State W → Option Request
  accepted s = first_of_list priorities s

  -- Serving a request: it is acknowledged, interrupts go off, PC is pushed and the vector taken.
  abbrev pub served : Bus W → State W → Option Request → State W × Bool
  served bus s none = (s, false)
  served bus s (some r) =
      let t =
        push_word bus (record (acknowledged r s) { int_enable = 0 }) (s.pc / 256 % 256)
          (s.pc % 256) in
      (record t { pc = vector r s }, true)

-- `checkInterrupts` serves the request of the highest priority that is pending and permitted, and
-- leaves the state alone if there is none.
pub check_interrupts-served :
    {W : Type 0} (bus : Bus W) (s : State W) → check_interrupts bus s ≡ served bus s (accepted s)
unfolding check_interrupts rst
check_interrupts-served bus s = ground arith
