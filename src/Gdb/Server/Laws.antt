-- ===== src/Gdb/Server/Laws.antt =====
-- src/gdb_stub.cpp: stepping and continuing.
use tool_i8085_trace.Prelude.{ℕ, ◌<◌, ◌≡◌, refl, ap, ◌∙◌, none, List, [], ◌∷◌, arith}
use Prim.Native.Nat.{ℕ}
use tool_i8085_trace.Cpu.State.{State, Bus}
use tool_i8085_trace.Main.{
  PeriodicTimer, ScheduledIrq, Config, Run, fire_timer, fire_timers, raise_due, observe, stopped,
  advance, once,
}
use tool_i8085_trace.Main.Laws.{once_cases}
use tool_i8085_trace.Main.Stops.{AllAfter}
use tool_i8085_trace.Gdb.Server.{Session, fire, step_once}

-- Timers that are not due.
abbrev pub NoneDue : List PeriodicTimer → ℕ → Type 0
NoneDue [] total = Unit {0}
NoneDue (t ∷ ts) total = (total < t.next_trigger_cycle) × NoneDue ts total

fire_timers_idle :
    {W : Type 0} (s : State W) (ts : List PeriodicTimer) (total : ℕ)
    → NoneDue ts total
    → fire_timers s ts total ≡ (s, ts)
unfolding fire_timers fire_timer
fire_timers_idle s [] total h = refl
fire_timers_idle s (t ∷ ts) total (p, h) = ground (arith, fire_timers_idle s ts total h)

raise_due_idle :
    {W : Type 0} (step : ℕ) (s : State W) (qs : List ScheduledIrq)
    → AllAfter step qs
    → raise_due step s qs ≡ (s, qs)
unfolding raise_due
raise_due_idle step s [] h = refl
raise_due_idle step s (q ∷ qs) (later, h) = ground arith

module _ {W : Type 0} (bus : Bus W) (on_step : State W → ℕ → ℕ → State W) where
  advance-step_once :
      (cfg : Config) (g : Session W) (r : Run W)
      → r.state ≡ g.state
      → r.stats ≡ g.stats
      → r.timers ≡ g.timers
      → r.step ≡ g.gdb_step
      → NoneDue g.timers g.stats.total_tstates
      → let h = (step_once bus on_step g).0 in
        let q = (advance bus on_step cfg r).0 in
        (q.state ≡ h.state) × (q.stats ≡ h.stats) × (q.timers ≡ h.timers) × (q.step ≡ h.gdb_step)
  unfolding step_once fire advance
  advance-step_once cfg g r e1 e2 e3 e4 due =
      ground (arith, fire_timers_idle g.state g.timers g.stats.total_tstates due)

  -- A step under the debugger is a round of the run loop: from the same machine, counters and timers,
  -- where no timer and no scheduled interrupt is due and the round does not break off before its
  -- instruction, `s` and the round leave the same machine, T-states, timers and step number.
  pub step_once-once :
      (cfg : Config) (g : Session W) (r : Run W)
      → r.state ≡ g.state
      → r.stats ≡ g.stats
      → r.timers ≡ g.timers
      → r.step ≡ g.gdb_step
      → NoneDue g.timers g.stats.total_tstates
      → AllAfter r.step r.irqs
      → stopped cfg (observe cfg r) ≡ none
      → let h = (step_once bus on_step g).0 in
        let q = (once bus on_step cfg r).0 in
        (q.state ≡ h.state) × (q.stats ≡ h.stats) × (q.timers ≡ h.timers) × (q.step ≡ h.gdb_step)
  unfolding observe
  step_once-once cfg g r e1 e2 e3 e4 due later free =
      let h = (step_once bus on_step g).0 in
      let same : (observe cfg r).state ≡ g.state =
        ap (λ x. x.0) (raise_due_idle r.step r.state r.irqs later) ∙ e1 in
      once_cases bus on_step cfg
        (λ q why.
          (q.state ≡ h.state) × (q.stats ≡ h.stats) × (q.timers ≡ h.timers) × (q.step ≡ h.gdb_step))
        r (λ why e. ground (arith, e, free))
        (λ e. advance-step_once cfg g (observe cfg r) same e2 e3 e4 due)
