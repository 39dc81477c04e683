-- ===== src/Tests.antt =====
-- The machines that the tests run on.
pub mod CpuTests
pub mod StackTests
pub mod BoardTests
pub mod LengthTests
pub mod NetTests
pub mod DiskTests
pub mod MainTests
pub mod GdbTests
pub mod HostTests
pub mod NetlistTests
pub mod ConfigTests
pub mod LoadTests
pub mod RangeTests
pub mod MachineTests
use tool_i8085_trace.Prelude.{◌+◌, true, false, ◌==◌, if◌then◌else◌}
use tool_i8085_trace.Prelude.{ℕ}
use tool_i8085_trace.Cpu.State.{Flags, State, Bus, ExecutionStats}

-- EI and RET at 0x0100, a return address at 0x2000 and a byte at 0x3456.
abbrev pub rom : ℕ → ℕ
rom x =
    if x == 0x0100
    then 0xfb
    else if x == 0x0101
    then 0xc9
    else if x == 0x2000
    then 0x34
    else if x == 0x2001
    then 0x12
    else if x == 0x3456
    then 0x27
    else 0x11

-- A running CPU with its stack at 0x2000. The world of the hooks is a number.
abbrev pub cpu : State ℕ
cpu = record {
  a = 0x38;
  b = 0xff;
  c = 0xff;
  d = 0x80;
  e = 0x01;
  h = 0x34;
  l = 0x56;
  sp = 0x2000;
  pc = 0x0100;
  cc = record { z = false; s = true; p = false; cy = true; ac = false; v = true; x5 = false };
  int_enable = 0;
  int_enable_delay = 0;
  r5_mask = 0;
  r6_mask = 0;
  r7_mask = 0;
  pending_trap = 0;
  pending_r5 = 0;
  pending_r6 = 1;
  r7_latch = 1;
  pending_int = 0;
  int_rst_number = 0;
  sid_line = 0;
  sod_line = 0;
  hlt_enable = 0;
  memory = rom;
  io = λ a. 0;
  world = 0;
}

-- Hooks that let everything pass, and count the writes of ports.
abbrev pub free_bus : Bus ℕ
free_bus = record {
  mem_write = λ s a v. (s, v);
  io_write = λ s a v. record s { world = s.world + 1 };
  io_pre_read = λ s a. s;
  io_read = λ s a v. s;
}

abbrev pub no_stats : ExecutionStats
no_stats = record { total_tstates = 0; min_sp = 0; min_sp_set = false }
