-- ===== src/Main/Stops.antt =====
-- src/main.cpp: the run loop's stop addresses and scheduled interrupts.
use mathlib.Core.Path.{subst}
use tool_i8085_trace.Prelude.{
  ℕ, ◌+◌, ◌^◌, ◌≤◌, ◌<◌, ◌≡◌, refl, sym, inl, inr, Bool, true, false, Option, none, some, List, [],
  ◌∷◌, arith, leb, if◌then◌else◌, Bool-cases,
}
use tool_i8085_trace.Cpu.State.{State, Bus, trigger_interrupt}
use tool_i8085_trace.Main.{
  ScheduledIrq, Config, HaltReason, stop, TraceState, Run, is_stop_address, raise_due, observe,
  stopped, advance, once, run,
}
use tool_i8085_trace.Main.Laws.{once_cases, run_induction}

-- No line of a trace is at a stop address.
abbrev pub NoneAt : List ℕ → List TraceState → Type 0
NoneAt addrs [] = addrs ≡ addrs
NoneAt addrs (t ∷ ts) = (is_stop_address t.pc addrs ≡ false) × NoneAt addrs ts

-- A halt for a stop address is at one.
abbrev pub right_place : List ℕ → ℕ → Option HaltReason → Bool
right_place addrs pc (some stop) = is_stop_address pc addrs
right_place addrs pc _ = true

module _ {W : Type 0} (bus : Bus W) (on_step : State W → ℕ → ℕ → State W) (cfg : Config) where
  observe_out : (r : Run W) → cfg.summary ≡ false → (observe cfg r).out ≡ r.out
  unfolding observe
  observe_out r m = ground arith

  stopped_free :
      (r : Run W) → stopped cfg r ≡ none → is_stop_address r.state.pc cfg.stop_addrs ≡ false
  unfolding stopped
  stopped_free r e = ground arith

  advance_out :
      (r : Run W)
      → cfg.summary ≡ false
      → is_stop_address r.state.pc cfg.stop_addrs ≡ false
      → NoneAt cfg.stop_addrs r.out
      → NoneAt cfg.stop_addrs (advance bus on_step cfg r).0.out
  unfolding advance
  advance_out r m e k = rw m (e, k)

  stopped_right :
      (r : Run W) (why : HaltReason)
      → stopped cfg r ≡ some why
      → right_place cfg.stop_addrs r.state.pc (some why) ≡ true
  unfolding stopped
  stopped_right r why e = ground (arith, e)

  advance_right :
      (r : Run W) (pc : ℕ) → right_place cfg.stop_addrs pc (advance bus on_step cfg r).1 ≡ true
  unfolding advance
  advance_right r pc = ground arith

  -- Where a run is with a reason to halt, or none.
  abbrev pub Obeys : Run W → Option HaltReason → Type 0
  Obeys r reason =
      NoneAt cfg.stop_addrs r.out × (right_place cfg.stop_addrs r.state.pc reason ≡ true)

  once-Obeys :
      (r : Run W)
      → cfg.summary ≡ false
      → NoneAt cfg.stop_addrs r.out
      → Obeys (once bus on_step cfg r).0 (once bus on_step cfg r).1
  once-Obeys r m k =
      let seen : NoneAt cfg.stop_addrs (observe cfg r).out = rw (observe_out r m) k in
      once_cases bus on_step cfg Obeys r (λ why e. (seen, stopped_right (observe cfg r) why e))
        (λ e. (
          advance_out (observe cfg r) m (stopped_free (observe cfg r) e) seen,
          advance_right (observe cfg r) _,
        ))

  -- The loop executes no instruction that it finds at a stop address, in a run whose trace is written:
  -- a trace, which has the PC that each round found before its instruction, with no line at a stop
  -- address gets none, and a run that halts for a stop address is at one. The steps must not reach
  -- 2^64. An interrupt that the instruction's call takes first is not seen by the loop, and so
  -- neither is a stop address at its vector.
  pub run-Obeys :
      (left : ℕ) (r : Run W)
      → cfg.summary ≡ false
      → left + r.step < 2 ^ 64
      → NoneAt cfg.stop_addrs r.out
      → Obeys (run bus on_step cfg left r).0 (run bus on_step cfg left r).1
  run-Obeys left r m h k =
      run_induction bus on_step cfg Obeys (λ q small p. once-Obeys q m p.0) (λ q p. (p.0, refl))
        left r h (k, refl)

-- The schedule in the order of its steps, as `main` sorts it.
abbrev pub Sorted : List ScheduledIrq → Type 0
Sorted [] = ℕ
Sorted (q ∷ []) = ℕ
Sorted (q ∷ p ∷ qs) = q.at_step ≤ p.at_step × Sorted (p ∷ qs)

abbrev pub AllAfter : ℕ → List ScheduledIrq → Type 0
AllAfter step [] = step ≡ step
AllAfter step (q ∷ qs) = (step < q.at_step) × AllAfter step qs

all_after :
    (step : ℕ) (q : ScheduledIrq) (qs : List ScheduledIrq)
    → Sorted (q ∷ qs)
    → step < q.at_step
    → AllAfter step (q ∷ qs)
all_after step q [] o h = (h, refl)
all_after step q (p ∷ qs) (le, o) h = (h, all_after step p qs o (omega arith))

tail-Sorted : (q : ScheduledIrq) (qs : List ScheduledIrq) → Sorted (q ∷ qs) → Sorted qs
tail-Sorted q [] o = 0
tail-Sorted q (p ∷ qs) (le, o) = o

-- With the schedule in the order of its steps, no interrupt that is due stays behind: what is left
-- of the schedule is for later steps.
pub raise_due-AllAfter :
    {W : Type 0} (step : ℕ) (s : State W) (qs : List ScheduledIrq)
    → Sorted qs
    → AllAfter step (raise_due step s qs).1
unfolding raise_due
raise_due-AllAfter step s [] o = refl
raise_due-AllAfter step s (q ∷ qs) o =
    let rest = raise_due step (trigger_interrupt s q.code 1).0 qs in
    elim (Bool-cases (leb q.at_step step)) [
      | inl e ↦
          subst (λ b. AllAfter step (if b then rest else (s, q ∷ qs)).1) (sym e)
            (raise_due-AllAfter step (trigger_interrupt s q.code 1).0 qs (tail-Sorted q qs o))
      | inr e ↦
          subst (λ b. AllAfter step (if b then rest else (s, q ∷ qs)).1) (sym e)
            (all_after step q qs o (ground arith))
    ]
