-- ===== src/Main/Keeps.antt =====
-- src/main.cpp: what an instruction, the input lines and `io_runtime_on_step` keep of the machine, the
-- whole run keeps.
use tool_i8085_trace.Prelude.{
  ℕ, zero, suc, ◌+◌, ◌^◌, ◌<◌, List, [], ◌∷◌, leb, Bool, true, false, if_both, u64,
}
use tool_i8085_trace.Cpu.State.{State, ExecutionStats, Bus, trigger_interrupt}
use tool_i8085_trace.Cpu.Step.{emulate_op}
use tool_i8085_trace.Main.{
  Config, Run, ScheduledIrq, PeriodicTimer, observe, advance, run, raise_due, fire_timer,
  fire_timers,
}
use tool_i8085_trace.Main.Laws.{once_cases, run_induction}

-- The input lines, an instruction and `io_runtime_on_step` keep `P`.
pub record RunKeeps {W : Type 0} (bus : Bus W) (on_step : State W → ℕ → ℕ → State W)
    (P : State W → Type 0) : Type 0 where
  pub on_interrupt : (s : State W) (code active : ℕ) → P s → P (trigger_interrupt s code active).0
  pub on_instruction :
      (s : State W) (stats : ExecutionStats) → P s → P (emulate_op bus s stats).state
  pub on_step_hook : (s : State W) (step total : ℕ) → P s → P (on_step s step total)

module _ {W : Type 0} (bus : Bus W) (on_step : State W → ℕ → ℕ → State W) (P : State W → Type 0)
    (keeps : RunKeeps bus on_step P) where
  raise_due-keeps :
      (step : ℕ) (qs : List ScheduledIrq) (s : State W) → P s → P (raise_due step s qs).0
  unfolding raise_due
  raise_due-keeps step [] s h = h
  raise_due-keeps step (q ∷ qs) s h =
      if_both (λ (e : State W × List ScheduledIrq). P e.0) (leb q.at_step step)
        (raise_due step (trigger_interrupt s q.code 1).0 qs) (s, q ∷ qs)
        (raise_due-keeps step qs (trigger_interrupt s q.code 1).0 (keeps.on_interrupt s q.code 1 h))
        h

  fire_timer-keeps :
      (left : ℕ) (s : State W) (t : PeriodicTimer) (total : ℕ)
      → P s
      → P (fire_timer left s t total).0
  unfolding fire_timer
  fire_timer-keeps zero s t total h = h
  fire_timer-keeps (suc left) s t total h =
      let raised = (trigger_interrupt s t.code 1).0 in
      let next : PeriodicTimer = record t {
        next_trigger_cycle = u64 (t.next_trigger_cycle + t.period_cycles);
      } in
      fired _ (leb t.next_trigger_cycle total)
        (fire_timer-keeps left raised next total (keeps.on_interrupt s t.code 1 h))
    where
      fired :
          (rest : State W × PeriodicTimer) (b : Bool)
          → P rest.0
          → P (let end : State W × PeriodicTimer = elim b [ true ↦ rest | false ↦ (s, t) ] in end).0
      fired rest true k = k
      fired rest false k = h

  fire_timers-keeps :
      (ts : List PeriodicTimer) (s : State W) (total : ℕ) → P s → P (fire_timers s ts total).0
  unfolding fire_timers
  fire_timers-keeps [] s total h = h
  fire_timers-keeps (t ∷ ts) s total h =
      fire_timers-keeps ts (fire_timer (suc total) s t total).0 total
        (fire_timer-keeps (suc total) s t total h)

  module _ (cfg : Config) where
    observe-keeps : (r : Run W) → P r.state → P (observe cfg r).state
    unfolding observe
    observe-keeps r h = raise_due-keeps r.step r.irqs r.state h

    advance-keeps : (r : Run W) → P r.state → P (advance bus on_step cfg r).0.state
    unfolding advance
    advance-keeps r h =
        let s = on_step r.state r.step r.stats.total_tstates in
        let done = emulate_op bus s r.stats in
        fire_timers-keeps r.timers done.state done.stats.total_tstates (
          keeps.on_instruction s r.stats
            (keeps.on_step_hook r.state r.step r.stats.total_tstates h))

    -- What they keep, a run keeps.
    pub run-keeps :
        (left : ℕ) (r : Run W)
        → left + r.step < 2 ^ 64
        → P r.state
        → P (run bus on_step cfg left r).0.state
    run-keeps left r small h =
        run_induction bus on_step cfg (λ (q : Run W) why. P q.state)
          (λ q fits p.
            once_cases bus on_step cfg (λ (q' : Run W) why. P q'.state) q
              (λ reason e. observe-keeps q p)
              (λ e. advance-keeps (observe cfg q) (observe-keeps q p)))
          (λ q p. p) left r small h
