-- ===== src/Main/Machine.antt =====
-- src/main.cpp, src/io_runtime.cpp: the program put together. The globals of the run-time, with the net
-- and the pin table, are the world of the CPU; the hooks of the run-time work on their part of it,
-- and the run loop's `io_runtime_on_step` steps the plugins and the net. The bytes that the channels
-- bring to each plugin are an argument, by step.
pub mod Rom
use tool_i8085_trace.Prelude.{ℕ, Bool, List}
use tool_i8085_trace.Cpu.State.{State, Bus}
use tool_i8085_trace.Net.{Net}
use tool_i8085_trace.Runtime.{DiskApi, Runtime, board}
use tool_i8085_trace.Runtime.Wiring.{PinHandle, on_step}

-- IORuntimeState
pub record Globals (D : Type 0) : Type 0 where
  pub runtime : Runtime D
  pub net : Net
  pub wiring : Bool
  pub pin_table : List PinHandle

-- The CPU with another part of the globals beside it.
abbrev pub with_world : {V W : Type 0} → State V → W → State W
with_world s w = record {
  a = s.a;
  b = s.b;
  c = s.c;
  d = s.d;
  e = s.e;
  h = s.h;
  l = s.l;
  sp = s.sp;
  pc = s.pc;
  cc = s.cc;
  int_enable = s.int_enable;
  int_enable_delay = s.int_enable_delay;
  r5_mask = s.r5_mask;
  r6_mask = s.r6_mask;
  r7_mask = s.r7_mask;
  pending_trap = s.pending_trap;
  pending_r5 = s.pending_r5;
  pending_r6 = s.pending_r6;
  r7_latch = s.r7_latch;
  pending_int = s.pending_int;
  int_rst_number = s.int_rst_number;
  sid_line = s.sid_line;
  sod_line = s.sod_line;
  hlt_enable = s.hlt_enable;
  memory = s.memory;
  io = s.io;
  world = w;
}

module _ {D : Type 0} where
  -- What the hooks see.
  abbrev pub chips : State (Globals D) → State (Runtime D)
  chips s = with_world s s.world.runtime

  -- What they leave, with the net as it was.
  abbrev pub put_back : Globals D → State (Runtime D) → State (Globals D)
  put_back g t = with_world t (record g { runtime = t.world })

  -- The hooks that i8085_exec.c calls.
  abbrev pub hooks : DiskApi D → Bus (Globals D)
  hooks api = record {
    mem_write =
        λ s a v. let (t, kept) = (board api).mem_write (chips s) a v in (put_back s.world t, kept);
    io_write = λ s a v. put_back s.world ((board api).io_write (chips s) a v);
    io_pre_read = λ s a. put_back s.world ((board api).io_pre_read (chips s) a);
    io_read = λ s a v. put_back s.world ((board api).io_read (chips s) a v);
  }

  -- `io_runtime_on_step(stepCount, stats.total_tstates)`
  unfoldable pub step_globals : (ℕ → List (List ℕ)) → State (Globals D) → ℕ → ℕ → State (Globals D)
  step_globals received s step tstates =
      let g = s.world in
      let (net, t) = on_step g.net g.wiring g.pin_table (chips s) (received step) step tstates in
      with_world t (record g { runtime = t.world; net = net })
