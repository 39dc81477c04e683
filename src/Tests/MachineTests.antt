-- ===== src/Tests/MachineTests.antt =====
-- src/main.cpp, src/io_runtime.cpp: the whole program at concrete inputs.
use tool_i8085_trace.Prelude.{
  ℕ, ◌≡◌, refl, true, false, none, some, List, [], ◌∷◌, arith, ◌==◌, if◌then◌else◌, codes,
}
use Prim.Native.Nat.{ℕ}
use tool_i8085_trace.Cpu.State.{State}
use tool_i8085_trace.Plugins.Memory
use tool_i8085_trace.Plugins.Ppi
use tool_i8085_trace.Net.{pull_up}
use tool_i8085_trace.Net.Gates.{lvl_x}
use tool_i8085_trace.Runtime.{memory, i8255}
use tool_i8085_trace.Runtime.Rom.{is_rom}
use tool_i8085_trace.Disk.{Stdio, Disk, disk_api}
use tool_i8085_trace.Main.{Run, run}
use tool_i8085_trace.Main.Machine.{Globals, hooks, step_globals}
use tool_i8085_trace.Main.Machine.Rom.{run-rom}
use tool_i8085_trace.Tests.{cpu, no_stats}
use tool_i8085_trace.Tests.MainTests.{options, timers, schedule}

-- IN 0x10, and STA 0x0100 behind it.
abbrev rom_program : ℕ → ℕ
rom_program x =
    if x == 0x0100
    then 0xdb
    else if x == 0x0101
    then 0x10
    else if x == 0x0102
    then 0x32
    else if x == 0x0104
    then 0x01
    else 0

abbrev rom : Memory.Ctx
rom = Memory.init 0 0x1000 false false

-- A file system without files.
abbrev no_files : Stdio ℕ ℕ
no_files = record {
  open_read = λ f p. (f, none);
  open_write = λ f p. (f, none);
  close = λ f h. f;
  getc = λ f h. (f, none);
  putc = λ f h c. (f, false);
  rewind = λ f h. f;
}

abbrev disk : Disk ℕ ℕ
disk = record {
  files = 0;
  dir = [];
  read_fp = none;
  write_fp = none;
  addr_lo = 0;
  addr_hi = 0;
  data_byte = 7;
  status = 0;
  initialized = true;
  bytes_read = 0;
  bytes_written = 0;
}

abbrev a_ppi : Ppi.Ctx
a_ppi = record Ppi.power_on { base = 0x10; in_a = 0xa5 }

abbrev machine : State (Globals (Disk ℕ ℕ))
machine = record {
  a = cpu.a;
  b = cpu.b;
  c = cpu.c;
  d = cpu.d;
  e = cpu.e;
  h = cpu.h;
  l = cpu.l;
  sp = cpu.sp;
  pc = cpu.pc;
  cc = cpu.cc;
  int_enable = 0;
  int_enable_delay = 0;
  r5_mask = 0;
  r6_mask = 0;
  r7_mask = 0;
  pending_trap = 0;
  pending_r5 = 0;
  pending_r6 = 0;
  r7_latch = 0;
  pending_int = 0;
  int_rst_number = 0;
  sid_line = 0;
  sod_line = 0;
  hlt_enable = 0;
  memory = rom_program;
  io = λ x. 0;
  world = record {
    runtime = record { plugins = memory rom ∷ i8255 a_ppi ∷ []; any_mem_write = true; disk = disk };
    net = record {
      nodes =
          record {
            pull = pull_up;
            level = lvl_x;
            warned_conflict = false;
            warned_float = false;
            gate_sources = [];
          }
          ∷ [];
      endpoints =
          record { node = 0; handle = some 0; is_output = false }
          ∷ record { node = 0; handle = some 1; is_output = false }
          ∷ [];
      gates = [];
      warned_oscillation = false;
    };
    wiring = true;
    pin_table =
        record { plugin = some 1; field = codes "A"; bit = 0; sub = codes "A0" }
        ∷ record { plugin = none; field = codes "RST7.5"; bit = 0; sub = codes "RST7.5" }
        ∷ [];
  };
}

-- The channels bring a byte to the second plugin at every step.
abbrev bytes : ℕ → List (List ℕ)
bytes step = [] ∷ (0x41 ∷ []) ∷ []

abbrev at_start : Run (Globals (Disk ℕ ℕ))
at_start = record {
  state = machine;
  stats = no_stats;
  step = 0;
  last_pc = 0xffff;
  last_sp = 0xffff;
  irqs = schedule;
  timers = timers;
  tracepoints = [];
  total_tracepoint_hits = 0;
  halted = 0;
  pc_hits = λ x. 0;
  op_hits = λ x. 0;
  out = [];
}

-- STA at a protected address.
run-rom_example :
    let t = (run (hooks (disk_api no_files)) (step_globals bytes) options 4 at_start).0.state in
    (t.memory 0x0100 ≡ 0xdb) × (is_rom t.world.runtime 0x0100 ≡ true)
run-rom_example = run-rom (disk_api no_files) bytes options 4 0x0100 at_start (omega arith) refl
