-- ===== src/Tests/MainTests.antt =====
-- src/main.cpp: the theorems at a concrete run.
use tool_i8085_trace.Prelude.{ℕ, ◌≤◌, ◌≡◌, refl, ◌≢◌, true, false, none, List, [], ◌∷◌, arith}
use Prim.Native.Nat.{ℕ}
use tool_i8085_trace.Tests.{cpu, free_bus, no_stats}
use tool_i8085_trace.Cpu.State.{State, trigger_interrupt}
use tool_i8085_trace.Main.{PeriodicTimer, ScheduledIrq, Config, Run, fire_timers, raise_due, run}
use tool_i8085_trace.Main.Timers.{AllAhead, fire_timers-AllAhead, fire_timers-fired_all}
use tool_i8085_trace.Main.Laws.{Counted, run_ends, run-Counted}
use tool_i8085_trace.Main.Stops.{AllAfter, Obeys, run-Obeys, raise_due-AllAfter}

abbrev pub idle : State ℕ → ℕ → ℕ → State ℕ
idle s step clocks = s

abbrev pub options : Config
options = record {
  max_steps = 3;
  loop_detect = true;
  stop_addrs = 0x1234 ∷ [];
  tracepoint_max = 0;
  tracepoint_stop = false;
  do_coverage = true;
  summary = false;
}

abbrev pub timers : List PeriodicTimer
timers =
    record { code = 65; period_cycles = 30; next_trigger_cycle = 30 }
    ∷ record { code = 75; period_cycles = 7; next_trigger_cycle = 200 }
    ∷ []

abbrev pub schedule : List ScheduledIrq
schedule = record { code = 55; at_step = 2 } ∷ record { code = 7; at_step = 9 } ∷ []

abbrev pub start : Run ℕ
start = record {
  state = cpu;
  stats = no_stats;
  step = 0;
  last_pc = 0xffff;
  last_sp = 0xffff;
  irqs = schedule;
  timers = timers;
  tracepoints = [];
  total_tracepoint_hits = 0;
  halted = 0;
  pc_hits = λ x. 0;
  op_hits = λ x. 0;
  out = [];
}

run_ends_example :
    ((run free_bus idle options 4 start).1 ≢ none)
    × ((run free_bus idle options 4 start).0.step ≤ 3)
run_ends_example =
    run_ends free_bus idle options 4 start (omega arith) (omega arith) (omega arith) (omega arith)

run-Counted_example :
    Counted 0x0101 (run free_bus idle options 4 start).0 (run free_bus idle options 4 start).1
run-Counted_example =
    run-Counted free_bus idle options 0x0101 4 start refl refl (omega arith) (refl, refl)

run-Obeys_example :
    Obeys free_bus idle options
      (run free_bus idle options 4 start).0
      (run free_bus idle options 4 start).1
run-Obeys_example = run-Obeys free_bus idle options 4 start refl (omega arith) refl

fire_timers-AllAhead_example : AllAhead timers (fire_timers cpu timers 100).1 100
fire_timers-AllAhead_example = fire_timers-AllAhead cpu timers 100 (omega arith)

fire_timers-fired_all_example : (fire_timers cpu timers 100).0 ≡ record cpu { pending_r6 = 1 }
unfolding trigger_interrupt
fire_timers-fired_all_example = fire_timers-fired_all cpu timers 100

raise_due-AllAfter_example : AllAfter 5 (raise_due 5 cpu schedule).1
raise_due-AllAfter_example = raise_due-AllAfter 5 cpu schedule (omega arith, 0)
