-- ===== src/Gdb/Server/Continue.antt =====
-- src/gdb_stub.cpp: where the packet `c` stops.
use tool_i8085_trace.Prelude.{ℕ, zero, suc, ◌<◌, ◌≡◌, ◌⊎◌, Bool, true, false, ◌&&◌, ◌!=◌, codes}
use Prim.Native.Nat.{ℕ}
use tool_i8085_trace.Cpu.State.{State, Bus}
use tool_i8085_trace.Main.{is_empty}
use tool_i8085_trace.Gdb.Server.{Session, Answer, reply, still_running, step_once}

module _ {W : Type 0} (bus : Bus W) (on_step : State W → ℕ → ℕ → State W) where
  -- A number of instructions of `c`.
  abbrev pub after : ℕ → Session W → Session W
  after zero g = g
  after (suc n) g = after n (step_once bus on_step g).0

  abbrev pub at_breakpoint : Session W → Bool
  at_breakpoint g = g.breakpoints g.state.pc

  -- The instruction halts the CPU and no timer is there to wake it.
  abbrev pub halts : Session W → Bool
  halts g = let (next, halted) = step_once bus on_step g in halted != 0 && is_empty next.timers

  -- A number of instructions, none of which leads to a breakpoint.
  abbrev pub Passed : ℕ → Session W → Type 0
  Passed zero g = Unit {0}
  Passed (suc n) g = (at_breakpoint (after 1 g) ≡ false) × Passed n (after 1 g)

  -- Why `c` answers behind `k + 1` instructions.
  abbrev pub Reason : (ℕ → Bool) → Session W → ℕ → Answer → Type 0
  Reason ctrl_c g k answer =
      ((answer ≡ reply (codes "S05")) × (at_breakpoint (after (suc k) g) ≡ true))
      ⊎ (((answer ≡ reply (codes "S05")) × (halts (after k g) ≡ true))
          ⊎ ((answer ≡ reply (codes "S02")) × (ctrl_c (after (suc k) g).gdb_step ≡ true)))

  -- How `c` ends from `g`: out of rounds, or answering for a reason.
  pub data Ran (ctrl_c : ℕ → Bool) (left : ℕ) (g : Session W) : Session W × Answer → Type 0 where
    out_of_rounds : Passed left g → Ran ctrl_c left g (after left g, still_running)
    answered :
        (k : ℕ) (answer : Answer)
        → k < left
        → Passed k g
        → Reason ctrl_c g k answer
        → Ran ctrl_c left g (after (suc k) g, answer)
