-- ===== src/Main/Timers.antt =====
-- src/main.cpp: the timer loop.
use tool_i8085_trace.Prelude.{
  ℕ, zero, suc, ◌+◌, ◌^◌, ◌≤◌, ◌<◌, ◌≡◌, refl, ◌⊎◌, List, [], ◌∷◌, arith, leb, if◌then◌else◌, u64,
}
use tool_i8085_trace.Cpu.State.{State, trigger_interrupt}
use tool_i8085_trace.Main.{PeriodicTimer, fire_timer, fire_timers}

-- What a timer leaves on the machine when its trigger is due.
abbrev pub fired : {W : Type 0} → State W → PeriodicTimer → ℕ → State W
fired s t total = if leb t.next_trigger_cycle total then (trigger_interrupt s t.code 1).0 else s

trigger_twice :
    {W : Type 0} (s : State W) (code : ℕ)
    → (trigger_interrupt (trigger_interrupt s code 1).0 code 1).0 ≡ (trigger_interrupt s code 1).0
unfolding trigger_interrupt
trigger_twice s code = ground arith

fire_timer_state :
    {W : Type 0} (left : ℕ) (s : State W) (t : PeriodicTimer) (total : ℕ)
    → (fire_timer (suc left) s t total).0 ≡ fired s t total
unfolding fire_timer
fire_timer_state zero s t total = ground arith
fire_timer_state (suc left) s t total =
    let t1 = record t { next_trigger_cycle = u64 (t.next_trigger_cycle + t.period_cycles) } in
    ground (
      arith,
      trigger_twice s t.code,
      fire_timer_state left (trigger_interrupt s t.code 1).0 t1 total,
    )

-- What a timer's next trigger is behind the loop, on a clock that stays a period below its end.
abbrev pub Ahead : PeriodicTimer → PeriodicTimer → ℕ → Type 0
Ahead t u total =
    (total < u.next_trigger_cycle)
    × (u.next_trigger_cycle ≤ total + t.period_cycles ⊎ u.next_trigger_cycle ≡ t.next_trigger_cycle)
    × (u.code ≡ t.code)
    × (u.period_cycles ≡ t.period_cycles)

fire_timer-Ahead :
    {W : Type 0} (left : ℕ) (s : State W) (t : PeriodicTimer) (total : ℕ)
    → 0 < t.period_cycles
    → total + t.period_cycles < 2 ^ 64
    → total < left + t.next_trigger_cycle
    → Ahead t (fire_timer left s t total).1 total
unfolding fire_timer
fire_timer-Ahead zero s t total p w h = ground arith
fire_timer-Ahead (suc left) s t total p w h =
    let t1 = record t { next_trigger_cycle = u64 (t.next_trigger_cycle + t.period_cycles) } in
    ground (arith, fire_timer-Ahead left (trigger_interrupt s t.code 1).0 t1 total)

-- The same for every timer of a list.
abbrev pub AllAhead : List PeriodicTimer → List PeriodicTimer → ℕ → Type 0
AllAhead [] us total = us ≡ []
AllAhead (t ∷ ts) [] total = ⊥
AllAhead (t ∷ ts) (u ∷ us) total = Ahead t u total × AllAhead ts us total

abbrev pub Bounded : List PeriodicTimer → ℕ → Type 0
Bounded [] total = total ≡ total
Bounded (t ∷ ts) total =
    (0 < t.period_cycles) × (total + t.period_cycles < 2 ^ 64) × Bounded ts total

-- The machine behind one look at each timer, in order.
abbrev pub fired_all : {W : Type 0} → State W → List PeriodicTimer → ℕ → State W
fired_all s [] total = s
fired_all s (t ∷ ts) total = fired_all (fired s t total) ts total

-- The timer loop ends with every timer ahead of the clock: where each period is positive and the
-- clock stays a period below its end, the next trigger of each timer lies behind the T-states that
-- have passed, by a period at most or where it was, and its code and period are as before.
pub fire_timers-AllAhead :
    {W : Type 0} (s : State W) (ts : List PeriodicTimer) (total : ℕ)
    → Bounded ts total
    → AllAhead ts (fire_timers s ts total).1 total
unfolding fire_timers
fire_timers-AllAhead s [] total b = refl
fire_timers-AllAhead s (t ∷ ts) total (p, w, b) = (
  fire_timer-Ahead (suc total) s t total p w (omega arith),
  fire_timers-AllAhead (fire_timer (suc total) s t total).0 ts total b,
)

-- Triggers that an instruction has run past are not kept apart: however many periods have gone by,
-- the timer loop leaves the machine as one `triggerInterrupt` for each timer that is due does, in the
-- order of the timers.
pub fire_timers-fired_all :
    {W : Type 0} (s : State W) (ts : List PeriodicTimer) (total : ℕ)
    → (fire_timers s ts total).0 ≡ fired_all s ts total
unfolding fire_timers
fire_timers-fired_all s [] total = refl
fire_timers-fired_all s (t ∷ ts) total =
    rw
      (
        fire_timers-fired_all (fire_timer (suc total) s t total).0 ts total,
        fire_timer_state total s t total,
      )
      refl
