-- ===== src/Main.antt =====
-- src/main.cpp: the run loop of `main`, between the option parser and the last report.
-- The hooks of the run-time are arguments: the bus and `io_runtime_on_step`. Messages on stderr are
-- left out, and the two texts of a trace line, which Trace has. A vector that the loop walks with
-- `nextIRQ` is the list of what is left of it, and the lines written so far stand last first.
pub mod Timers
pub mod Laws
pub mod Keeps
pub mod Machine
pub mod Load
pub mod Arguments
pub mod Trace
pub mod Stops
pub mod Dump
pub mod Options
use tool_i8085_trace.Prelude.{
  ℕ, zero, suc, ◌+◌, ◌*◌, Bool, true, false, not, ◌&&◌, ◌||◌, Option, none, some, List, [], ◌∷◌,
  ltb, leb, ◌==◌, ◌!=◌, if◌then◌else◌, bit, u32, u64,
}
use tool_i8085_trace.Cpu.State.{Flags, State, ExecutionStats, Bus, store, trigger_interrupt}
use tool_i8085_trace.Cpu.Step.{Stepped, emulate_op}

pub record ScheduledIrq : Type 0 where
  pub code : ℕ
  pub at_step : ℕ

pub record PeriodicTimer : Type 0 where
  pub code : ℕ
  pub period_cycles : ℕ
  pub next_trigger_cycle : ℕ

pub record Tracepoint : Type 0 where
  pub pc : ℕ
  pub hits : ℕ

-- The options that the loop reads; the lists that it changes stand in its state.
pub record Config : Type 0 where
  pub max_steps : ℕ
  pub loop_detect : Bool
  pub stop_addrs : List ℕ
  pub tracepoint_max : ℕ
  pub tracepoint_stop : Bool
  pub do_coverage : Bool
  pub summary : Bool

-- `haltReason`
pub data HaltReason : Type 0 where
  max_reached : HaltReason
  tracepoint_max : HaltReason
  tracepoint_stop : HaltReason
  stop : HaltReason
  loop : HaltReason
  hlt : HaltReason

-- A line of the trace: what the loop saw before the instruction, and the registers A to L.
pub record TraceState : Type 0 where
  pub step : ℕ
  pub pc : ℕ
  pub sp : ℕ
  pub flags : ℕ
  pub clocks : ℕ
  pub registers : List ℕ

-- The loop's variables, and the machine.
pub record Run (W : Type 0) : Type 0 where
  pub state : State W
  pub stats : ExecutionStats
  pub step : ℕ
  pub last_pc : ℕ
  pub last_sp : ℕ
  pub irqs : List ScheduledIrq
  pub timers : List PeriodicTimer
  pub tracepoints : List Tracepoint
  pub total_tracepoint_hits : ℕ
  pub halted : ℕ
  pub pc_hits : ℕ → ℕ
  pub op_hits : ℕ → ℕ
  pub out : List TraceState

-- `PackFlags`: the fields do not overlap, so `|=` adds.
unfoldable pub pack_flags : Flags → ℕ
pack_flags cc =
    bit cc.s * 0x80 + bit cc.z * 0x40 + bit cc.ac * 0x10 + bit cc.p * 0x04 + 0x02 + bit cc.cy

-- `AddTracepoint`
unfoldable pub add_tracepoint : List Tracepoint → ℕ → List Tracepoint
add_tracepoint [] addr = record { pc = addr; hits = 0 } ∷ []
add_tracepoint (tp ∷ tps) addr =
    let rest = add_tracepoint tps addr in if tp.pc == addr then tp ∷ tps else tp ∷ rest

-- `IsStopAddress`
unfoldable pub is_stop_address : ℕ → List ℕ → Bool
is_stop_address pc [] = false
is_stop_address pc (a ∷ rest) = a == pc || is_stop_address pc rest

abbrev pub is_empty : {A : Type 0} → List A → Bool
is_empty [] = true
is_empty (x ∷ xs) = false

-- The loop over the tracepoints: the first one at `pc` is hit.
unfoldable pub hit : ℕ → List Tracepoint → List Tracepoint × Bool
hit pc [] = ([], false)
hit pc (tp ∷ tps) =
    let (rest, found) = hit pc tps in
    if pc == tp.pc then (record tp { hits = u32 (tp.hits + 1) } ∷ tps, true) else (tp ∷ rest, found)

unfoldable pub all_hit : List Tracepoint → Bool
all_hit [] = true
all_hit (tp ∷ tps) = tp.hits != 0 && all_hit tps

-- The timer loop of one timer, with the rounds left.
unfoldable pub fire_timer : {W : Type 0} → ℕ → State W → PeriodicTimer → ℕ → State W × PeriodicTimer
fire_timer zero s t total = (s, t)
fire_timer (suc left) s t total = elim (leb t.next_trigger_cycle total) [
  | true ↦
      fire_timer left (trigger_interrupt s t.code 1).0
        (record t { next_trigger_cycle = u64 (t.next_trigger_cycle + t.period_cycles) }) total
  | false ↦ (s, t)
]

-- A period is at least 1, so a round for each T-state is enough.
unfoldable pub fire_timers :
    {W : Type 0} → State W → List PeriodicTimer → ℕ → State W × List PeriodicTimer
fire_timers s [] total = (s, [])
fire_timers s (t ∷ ts) total =
    let (s1, t1) = fire_timer (suc total) s t total in
    let (s2, ts2) = fire_timers s1 ts total in (s2, t1 ∷ ts2)

-- The loop over the scheduled interrupts that are due.
unfoldable pub raise_due :
    {W : Type 0} → ℕ → State W → List ScheduledIrq → State W × List ScheduledIrq
raise_due step s [] = (s, [])
raise_due step s (q ∷ qs) =
    if leb q.at_step step then raise_due step (trigger_interrupt s q.code 1).0 qs else (s, q ∷ qs)

abbrev pub registers : {W : Type 0} → State W → List ℕ
registers s = s.a ∷ s.b ∷ s.c ∷ s.d ∷ s.e ∷ s.h ∷ s.l ∷ []

module _ {W : Type 0} (cfg : Config) where
  -- The top of the body: interrupts that are due, coverage and tracepoints.
  unfoldable pub observe : Run W → Run W
  observe r =
      let (s, irqs) = raise_due r.step r.state r.irqs in
      let (tps, found) = hit s.pc r.tracepoints in
      let line : TraceState = record {
        step = r.step;
        pc = s.pc;
        sp = s.sp;
        flags = pack_flags s.cc;
        clocks = r.stats.total_tstates;
        registers = registers s;
      } in
      record r {
        state = s;
        irqs = irqs;
        pc_hits =
            if cfg.do_coverage then store r.pc_hits s.pc (u64 (r.pc_hits s.pc + 1)) else r.pc_hits;
        op_hits =
            if cfg.do_coverage
            then store r.op_hits (s.memory s.pc) (u64 (r.op_hits (s.memory s.pc) + 1))
            else r.op_hits;
        tracepoints = tps;
        total_tracepoint_hits =
            if found then u64 (r.total_tracepoint_hits + 1) else r.total_tracepoint_hits;
        out = if found && cfg.summary then line ∷ r.out else r.out;
      }

  abbrev pub pending_irq : State W → Bool
  pending_irq s = s.pending_trap != 0 || s.pending_r5 != 0 || s.pending_r6 != 0 || s.r7_latch != 0

  -- The breaks before the instruction.
  unfoldable pub stopped : Run W → Option HaltReason
  stopped r =
      if ltb 0 cfg.tracepoint_max && leb cfg.tracepoint_max r.total_tracepoint_hits
      then some tracepoint_max
      else if cfg.tracepoint_stop && not (is_empty r.tracepoints) && all_hit r.tracepoints
      then some tracepoint_stop
      else if is_stop_address r.state.pc cfg.stop_addrs
      then some stop
      else if cfg.loop_detect
          && r.halted == 0
          && r.state.pc == r.last_pc
          && r.state.sp == r.last_sp
          && not (pending_irq r.state)
          && is_empty r.irqs
          && is_empty r.timers
      then some loop
      else none

module _ {W : Type 0} (bus : Bus W) (on_step : State W → ℕ → ℕ → State W) (cfg : Config) where
  -- The rest of the body.
  unfoldable pub advance : Run W → Run W × Option HaltReason
  advance r =
      let s = on_step r.state r.step r.stats.total_tstates in
      let done = emulate_op bus s r.stats in
      let (s2, timers) = fire_timers done.state r.timers done.stats.total_tstates in
      let line : TraceState = record {
        step = r.step;
        pc = r.state.pc;
        sp = r.state.sp;
        flags = pack_flags r.state.cc;
        clocks = r.stats.total_tstates;
        registers = registers s2;
      } in
      (
        record r {
          state = s2;
          stats = done.stats;
          step = u64 (r.step + 1);
          last_pc = r.state.pc;
          last_sp = r.state.sp;
          timers = timers;
          halted = done.halted;
          out = if cfg.summary then r.out else line ∷ r.out;
        },
        if done.halted != 0 && is_empty r.irqs && is_empty timers then some hlt else none,
      )

  unfoldable pub once : Run W → Run W × Option HaltReason
  once r =
      let seen = observe cfg r in
      elim (stopped cfg seen) [ some reason ↦ (seen, some reason) | none ↦ advance seen ]

  -- The `while` loop, with the rounds left; `none` where they run out.
  unfoldable pub run : ℕ → Run W → Run W × Option HaltReason
  run zero r = (r, none)
  run (suc left) r =
      if cfg.max_steps == 0 || ltb r.step cfg.max_steps
      then (let (next, reason) = once r in
          elim reason [ some why ↦ (next, some why) | none ↦ run left next ])
      else (r, some max_reached)
