-- ===== src/Cpu/State.antt =====
-- include/i8085_cpu.h and src/i8085_state.c: the CPU state, its reset and its input lines.
-- A register is a native number that every store cuts to its C type. A flag, a one-bit field, is
-- a Bool; the field `pad`, which nothing reads, is left out. `memory` and `io` are functions of
-- the address. The C buffers end at 0x10000 and 0x100: the CPU writes below those ends only, and
-- a read past the end of `memory`, which C leaves undefined, finds what the function has there.
-- `world` holds what the run-time hooks keep of their own (the plugins' contexts), so a hook is
-- a function of the whole state.
use tool_i8085_trace.Prelude.{ℕ, Bool, false, ◌==◌, ◌!=◌, leb, if◌then◌else◌, bit, u8, ◌%◌}

pub record Flags : Type 0 where
  pub z : Bool
  pub s : Bool
  pub p : Bool
  pub cy : Bool
  pub ac : Bool
  pub v : Bool
  pub x5 : Bool

pub record State (W : Type 0) : Type 0 where
  pub a : ℕ
  pub b : ℕ
  pub c : ℕ
  pub d : ℕ
  pub e : ℕ
  pub h : ℕ
  pub l : ℕ
  pub sp : ℕ
  pub pc : ℕ
  pub cc : Flags
  pub int_enable : ℕ
  pub int_enable_delay : ℕ
  pub r5_mask : ℕ
  pub r6_mask : ℕ
  pub r7_mask : ℕ
  pub pending_trap : ℕ
  pub pending_r5 : ℕ
  pub pending_r6 : ℕ
  pub r7_latch : ℕ
  pub pending_int : ℕ
  pub int_rst_number : ℕ
  pub sid_line : ℕ
  pub sod_line : ℕ
  pub hlt_enable : ℕ
  pub memory : ℕ → ℕ
  pub io : ℕ → ℕ
  pub world : W

pub record ExecutionStats : Type 0 where
  pub total_tstates : ℕ
  pub min_sp : ℕ
  pub min_sp_set : Bool

-- The hooks that the core calls: `io_runtime_mem_write`, `io_write`, `io_pre_read`, `io_read`.
pub record Bus (W : Type 0) : Type 0 where
  pub mem_write : State W → ℕ → ℕ → State W × ℕ
  pub io_write : State W → ℕ → ℕ → State W
  pub io_pre_read : State W → ℕ → State W
  pub io_read : State W → ℕ → ℕ → State W

abbrev pub cleared : Flags
cleared = record { z = false; s = false; p = false; cy = false; ac = false; v = false; x5 = false }

-- A store into a one-bit field keeps the lowest bit.
abbrev pub flag : ℕ → Bool
flag n = n % 2 == 1

-- `f[a] = v`
abbrev pub store : (ℕ → ℕ) → ℕ → ℕ → ℕ → ℕ
store f a v x = if x == a then v else f x

module _ {W : Type 0} where
  -- memset, then the buffers and the two pointers again. The plugins' contexts are not the CPU's.
  abbrev pub reset : State W → ℕ → ℕ → State W
  reset s pc sp = record {
    a = 0;
    b = 0;
    c = 0;
    d = 0;
    e = 0;
    h = 0;
    l = 0;
    sp = sp;
    pc = pc;
    cc = cleared;
    int_enable = 0;
    int_enable_delay = 0;
    r5_mask = 0;
    r6_mask = 0;
    r7_mask = 0;
    pending_trap = 0;
    pending_r5 = 0;
    pending_r6 = 0;
    r7_latch = 0;
    pending_int = 0;
    int_rst_number = 0;
    sid_line = 0;
    sod_line = 0;
    hlt_enable = 0;
    memory = s.memory;
    io = s.io;
    world = s.world;
  }

  abbrev pub set_sid_line : State W → ℕ → State W
  set_sid_line s level = record s { sid_line = bit (level != 0) }

  abbrev pub get_sod_line : State W → ℕ
  get_sod_line s = if s.sod_line != 0 then 1 else 0

  -- `code` and `active` are C ints; no caller passes a negative one. The stores cut to a byte.
  unfoldable pub trigger_interrupt : State W → ℕ → ℕ → State W × ℕ
  trigger_interrupt s code active =
      if leb code 7
      then (record s { pending_int = u8 active; int_rst_number = code }, s.int_enable)
      else if code == 45
      then (record s { pending_trap = u8 active }, s.int_enable)
      else if code == 55
      then (record s { pending_r5 = u8 active }, s.int_enable)
      else if code == 65
      then (record s { pending_r6 = u8 active }, s.int_enable)
      else if code == 75
      then (if active == 1 then record s { r7_latch = 1 } else s, s.int_enable)
      else (s, s.int_enable)
