-- ===== src/Main/Laws.antt =====
-- src/main.cpp: the run loop's end, its step counter and its coverage counters.
use tool_i8085_trace.Prelude.{
  length, ℕ, zero, suc, ◌+◌, ◌^◌, ◌≤◌, ◌<◌, ◌≡◌, refl, ◌≢◌, Bool, true, false, ◌&&◌, ◌||◌, Option,
  none, some, List, [], ◌∷◌, arith, ltb, ◌==◌, if◌then◌else◌, u64,
}
use tool_i8085_trace.Cpu.State.{State, Bus}
use tool_i8085_trace.Main.{
  Config, HaltReason, max_reached, tracepoint_max, tracepoint_stop, stop, loop, hlt, TraceState,
  Run, observe, stopped, advance, once, run,
}

-- How often a trace has the address `x`.
abbrev pub count_at : ℕ → List TraceState → ℕ
count_at x [] = 0
count_at x (t ∷ ts) = (if x == t.pc then 1 else 0) + count_at x ts

count_at-length : (x : ℕ) (ts : List TraceState) → count_at x ts ≤ length ts
count_at-length x [] = omega arith
count_at-length x (t ∷ ts) = ground (arith, count_at-length x ts)

-- A break before the instruction comes behind its counting.
abbrev pub before_instruction : Option HaltReason → Bool
before_instruction none = false
before_instruction (some max_reached) = false
before_instruction (some tracepoint_max) = true
before_instruction (some tracepoint_stop) = true
before_instruction (some stop) = true
before_instruction (some loop) = true
before_instruction (some hlt) = false

-- The end of a round of `run`, whichever it is.
end_of_round :
    {W : Type 0} (P : Run W → Option HaltReason → Type 0) (go : Bool) (next r : Run W)
    (reason : Option HaltReason) (rest : Run W × Option HaltReason)
    → P next reason
    → (reason ≡ none → P next none → P rest.0 rest.1)
    → P r (some max_reached)
    → let end =
        if go
        then (elim reason [ some why ↦ (next, some why) | none ↦ rest ])
        else (r, some max_reached) in
      P end.0 end.1
end_of_round P true next r none rest p more m = more refl p
end_of_round P true next r (some why) rest p more m = p
end_of_round P false next r reason rest p more m = m

-- Address `x` is counted as often as the trace has it, and once more where the loop broke off.
abbrev pub Counted : {W : Type 0} → ℕ → Run W → Option HaltReason → Type 0
Counted x r reason =
    (r.pc_hits x
      ≡ count_at x r.out + (if before_instruction reason && x == r.state.pc then 1 else 0))
    × (length r.out ≡ r.step)

-- The same behind the count and before the instruction.
abbrev Seen : {W : Type 0} → ℕ → Run W → Type 0
Seen x r =
    (r.pc_hits x ≡ count_at x r.out + (if x == r.state.pc then 1 else 0)) × (length r.out ≡ r.step)

-- The two ends of `once`.
after_stop :
    {W : Type 0} (P : Run W → Option HaltReason → Type 0) (seen : Run W)
    (rest : Run W × Option HaltReason) (why : Option HaltReason)
    → ((reason : HaltReason) → why ≡ some reason → P seen (some reason))
    → (why ≡ none → P rest.0 rest.1)
    → let end : Run W × Option HaltReason = elim why [
      | some reason ↦ (seen, some reason)
      | none ↦ rest
    ] in
      P end.0 end.1
after_stop P seen rest none p q = q refl
after_stop P seen rest (some reason) p q = p reason refl

module _ {W : Type 0} (bus : Bus W) (on_step : State W → ℕ → ℕ → State W) (cfg : Config) where
  observe_step : (r : Run W) → (observe cfg r).step ≡ r.step
  unfolding observe
  observe_step r = refl

  advance_step : (r : Run W) → (advance bus on_step cfg r).0.step ≡ u64 (r.step + 1)
  unfolding advance
  advance_step r = refl

  pub once_cases :
      (P : Run W → Option HaltReason → Type 0) (r : Run W)
      → ((reason : HaltReason)
          → stopped cfg (observe cfg r) ≡ some reason
          → P (observe cfg r) (some reason))
      → (stopped cfg (observe cfg r) ≡ none
          → P
              (advance bus on_step cfg (observe cfg r)).0
              (advance bus on_step cfg (observe cfg r)).1)
      → P (once bus on_step cfg r).0 (once bus on_step cfg r).1
  unfolding once
  once_cases P r p q =
      after_stop P (observe cfg r) (advance bus on_step cfg (observe cfg r))
        (stopped cfg (observe cfg r)) p q

  once_step :
      (r : Run W)
      → r.step + 1 < 2 ^ 64
      → ((once bus on_step cfg r).0.step ≤ r.step + 1)
        × ((once bus on_step cfg r).1 ≡ none → (once bus on_step cfg r).0.step ≡ r.step + 1)
  once_step r h =
      once_cases (λ (q : Run W) why. (q.step ≤ r.step + 1) × (why ≡ none → q.step ≡ r.step + 1)) r
        (λ why e. ground (arith, observe_step r))
        (λ e. ground (arith, observe_step r, advance_step (observe cfg r)))

  -- A bounded run ends: with `maxSteps` above 0, one round more than there are steps left gives a
  -- reason to halt, and the step counter does not pass `maxSteps`.
  pub run_ends :
      (left : ℕ) (r : Run W)
      → 0 < cfg.max_steps
      → cfg.max_steps < 2 ^ 64
      → r.step ≤ cfg.max_steps
      → cfg.max_steps < left + r.step
      → ((run bus on_step cfg left r).1 ≢ none)
        × ((run bus on_step cfg left r).0.step ≤ cfg.max_steps)
  unfolding run
  run_ends zero r p w b h = absurd (omega arith)
  run_ends (suc left) r p w b h =
      ground (arith, once_step r, run_ends left (once bus on_step cfg r).0)

  observe-Seen :
      (x : ℕ) (r : Run W)
      → cfg.do_coverage ≡ true
      → cfg.summary ≡ false
      → r.step + 1 < 2 ^ 64
      → Counted x r none
      → Seen x (observe cfg r)
  unfolding observe
  observe-Seen x r c m h k = ground (arith, count_at-length x r.out)

  stopped_before :
      (r : Run W) (reason : HaltReason)
      → stopped cfg r ≡ some reason
      → before_instruction (some reason) ≡ true
  unfolding stopped
  stopped_before r reason e = ground arith

  advance-Counted :
      (x : ℕ) (r : Run W)
      → cfg.summary ≡ false
      → r.step + 1 < 2 ^ 64
      → Seen x r
      → Counted x (advance bus on_step cfg r).0 (advance bus on_step cfg r).1
  unfolding advance
  advance-Counted x r m h k = ground arith

  once-Counted :
      (x : ℕ) (r : Run W)
      → cfg.do_coverage ≡ true
      → cfg.summary ≡ false
      → r.step + 1 < 2 ^ 64
      → Counted x r none
      → Counted x (once bus on_step cfg r).0 (once bus on_step cfg r).1
  once-Counted x r c m h k =
      let seen = observe-Seen x r c m h k in
      once_cases (Counted x) r (λ why e. rw (stopped_before (observe cfg r) why e) seen)
        (λ e. advance-Counted x (observe cfg r) m (omega (arith, observe_step r)) seen)

  -- What a round keeps, a run keeps.
  pub run_induction :
      (P : Run W → Option HaltReason → Type 0)
      → ((q : Run W)
          → q.step + 1 < 2 ^ 64
          → P q none
          → P (once bus on_step cfg q).0 (once bus on_step cfg q).1)
      → ((q : Run W) → P q none → P q (some max_reached))
      → (left : ℕ) (r : Run W) → left + r.step < 2 ^ 64
      → P r none
      → P (run bus on_step cfg left r).0 (run bus on_step cfg left r).1
  unfolding run
  run_induction P round full zero r h k = k
  run_induction P round full (suc left) r h k =
      let next = (once bus on_step cfg r).0 in
      let small : r.step + 1 < 2 ^ 64 = omega arith in
      end_of_round P (cfg.max_steps == 0 || ltb r.step cfg.max_steps) next r
        (once bus on_step cfg r).1 (run bus on_step cfg left next) (round r small k)
        (λ e p. run_induction P round full left next (omega (arith, (once_step r small).1 e)) p)
        (full r k)

  -- The coverage file agrees with the trace: in a run with coverage whose trace is written, whatever
  -- ends it, the hits of an address are the trace lines that have it, and one more at the address
  -- where a stop address, a tracepoint or the loop detection broke off before the instruction. The
  -- trace has a line for each step.
  pub run-Counted :
      (x left : ℕ) (r : Run W)
      → cfg.do_coverage ≡ true
      → cfg.summary ≡ false
      → left + r.step < 2 ^ 64
      → Counted x r none
      → Counted x (run bus on_step cfg left r).0 (run bus on_step cfg left r).1
  run-Counted x left r c m h k =
      run_induction (Counted x) (λ q small p. once-Counted x q c m small p) (λ q p. p) left r h k
