-- ===== src/Plugins/Pit.antt =====
-- plugins/pit8254.cpp: the 8254 timer, three counters on a clock that the CPU's T-states drive.
pub mod Laws
pub mod Modes
use tool_i8085_trace.Prelude.{
  ℕ, zero, suc, ◌+◌, ◌-◌, ◌*◌, ◌/◌, ◌%◌, ◌^◌, bit_and, Bool, true, false, not, ◌&&◌, Option, none,
  some, List, ltb, leb, ◌==◌, ◌!=◌, if◌then◌else◌, u8, u16, u64, word,
}
use tool_i8085_trace.Plugins.Config.{cfg_value, parse_num}
use tool_i8085_trace.Prelude.{codes}
use tool_i8085_trace.Cpu.State.{State, store}

pub record Counter : Type 0 where
  pub initial : ℕ
  pub count : ℕ
  pub mode : ℕ
  pub rw : ℕ
  pub bcd : Bool
  pub out : Bool
  pub running : Bool
  pub write_msb_next : Bool
  pub write_lsb : ℕ
  pub latched : Bool
  pub latch_val : ℕ
  pub read_msb_next : Bool

-- `Counter()`
abbrev pub fresh : Counter
fresh = record {
  initial = 0;
  count = 0;
  mode = 0;
  rw = 3;
  bcd = false;
  out = false;
  running = false;
  write_msb_next = false;
  write_lsb = 0;
  latched = false;
  latch_val = 0;
  read_msb_next = false;
}

pub record Ctx : Type 0 where
  pub base : ℕ
  pub clkdiv : ℕ
  pub last_tstates : ℕ
  pub clk_accum : ℕ
  pub gate_mask : ℕ
  pub c0 : Counter
  pub c1 : Counter
  pub c2 : Counter

unfoldable pub full_count : Counter → ℕ
full_count k = if k.initial == 0 then 0x10000 else k.initial

-- Mode 2, rate generator.
unfoldable pub tick_rate : Counter → Counter
tick_rate k =
    if leb k.count 1
    then record k { count = full_count k; out = true }
    else record k { count = k.count - 1; out = k.count - 1 != 1 }

-- Mode 3, square wave.
unfoldable pub tick_square : Counter → Counter
tick_square k =
    if leb k.count 2
    then record k { count = full_count k; out = not k.out }
    else record k { count = k.count - 2 }

-- Modes 0, 1, 4 and 5.
unfoldable pub tick_down : Counter → Counter
tick_down k =
    let next : ℕ = if k.count == 0 then 0xffff else k.count - 1 in
    record k { count = next; out = if next == 0 then true else k.out }

unfoldable pub tick_counter : Counter → Counter
unfolding tick_rate tick_square tick_down
tick_counter k =
    if not k.running
    then k
    else if k.mode == 2
    then tick_rate k
    else if k.mode == 3
    then tick_square k
    else tick_down k

unfoldable pub load_counter : Counter → ℕ → Counter
load_counter k initial =
    let loaded = record k { initial = initial % 0x10000 } in
    record loaded { count = full_count loaded; running = true; out = k.mode != 0 }

-- Counter-latch: an earlier latch that is not read yet stays.
unfoldable pub latch : Counter → Counter
latch k =
    if k.latched
    then k
    else record k { latch_val = u16 k.count; latched = true; read_msb_next = false }

-- Modes 6 and 7 are 2 and 3.
unfoldable pub mode_of : ℕ → ℕ
mode_of val = if ltb 5 (val / 2 % 8) then val / 2 % 8 - 4 else val / 2 % 8

unfoldable pub program : Counter → ℕ → Counter
program k val = record k {
  rw = val / 16 % 4;
  mode = mode_of val;
  bcd = val % 2 == 1;
  running = false;
  write_msb_next = false;
  read_msb_next = false;
  latched = false;
  out = mode_of val != 0;
}

unfoldable pub control_counter : Counter → ℕ → Counter
control_counter k val = if val / 16 % 4 == 0 then latch k else program k val

-- `c[i]`, and a change of it.
unfoldable pub counter : Ctx → ℕ → Counter
counter x i = if i == 0 then x.c0 else if i == 1 then x.c1 else x.c2

unfoldable pub on_counter : Ctx → ℕ → (Counter → Counter) → Ctx
on_counter x i f =
    if i == 0
    then record x { c0 = f x.c0 }
    else if i == 1
    then record x { c1 = f x.c1 }
    else record x { c2 = f x.c2 }

-- The read-back command, with both select bits set, is ignored.
unfoldable pub write_control : Ctx → ℕ → Ctx
write_control x val =
    if val / 64 % 4 == 3 then x else on_counter x (val / 64 % 4) (λ k. control_counter k val)

unfoldable pub write_counter : Counter → ℕ → Counter
write_counter k val =
    if k.rw == 1
    then load_counter k val
    else if k.rw == 2
    then load_counter k (val * 256)
    else if k.rw == 3
    then (if not k.write_msb_next
        then record k { write_lsb = val; write_msb_next = true }
        else record (load_counter k (word val k.write_lsb)) { write_msb_next = false })
    else k

unfoldable pub read_counter_byte : Counter → ℕ
read_counter_byte k =
    let v : ℕ = if k.latched then k.latch_val else u16 k.count in
    if k.rw == 1
    then v % 256
    else if k.rw == 2
    then u8 (v / 256)
    else if k.rw == 3
    then (if k.read_msb_next then u8 (v / 256) else v % 256)
    else v % 256

unfoldable pub advance_read : Counter → Counter
advance_read k =
    if k.rw == 3 && not k.read_msb_next
    then record k { read_msb_next = true }
    else if k.rw == 3
    then record k { read_msb_next = false; latched = false }
    else record k { latched = false }

-- One tick of every counter whose gate is high.
unfoldable pub tick_gated : Ctx → Ctx
tick_gated x = record x {
  c0 = if x.gate_mask % 2 == 1 then tick_counter x.c0 else x.c0;
  c1 = if x.gate_mask / 2 % 2 == 1 then tick_counter x.c1 else x.c1;
  c2 = if x.gate_mask / 4 % 2 == 1 then tick_counter x.c2 else x.c2;
}

-- The loop of `on_step`, with the ticks left.
unfoldable pub tick_times : ℕ → Ctx → Ctx
tick_times zero x = x
tick_times (suc n) x = tick_times n (tick_gated x)

-- The clock of `on_step`: T-states gathered, and whole ticks taken out of them.
unfoldable pub gather : Ctx → ℕ → Ctx × ℕ
gather x tstates =
    let accum = u64 (x.clk_accum + (tstates + 2 ^ 64 - x.last_tstates) % 2 ^ 64) in
    let ticks = accum / x.clkdiv in
    (record x { last_tstates = tstates; clk_accum = accum - ticks * x.clkdiv }, ticks)

unfoldable pub on_step : Ctx → ℕ → Ctx
on_step x tstates =
    let (y, ticks) = gather x tstates in tick_times (if ltb 0x40000 ticks then 0x40000 else ticks) y

-- `(int)port - (int)base`, where it is 0 to 3.
unfoldable pub offset_of : Ctx → ℕ → Option ℕ
offset_of x port = if leb x.base port && leb port (x.base + 3) then some (port - x.base) else none

unfoldable pub on_io_pre_read : {W : Type 0} → Ctx → State W → ℕ → State W
on_io_pre_read x state port = elim (offset_of x port) [
  | none ↦ state
  | some i ↦
      if ltb i 3
      then record state { io = store state.io port (read_counter_byte (counter x i)) }
      else state
]

unfoldable pub on_io_post_read : Ctx → ℕ → Ctx
on_io_post_read x port = elim (offset_of x port) [
  | none ↦ x
  | some i ↦ if ltb i 3 then on_counter x i advance_read else x
]

unfoldable pub on_io_write : Ctx → ℕ → ℕ → Ctx
on_io_write x port value = elim (offset_of x port) [
  | none ↦ x
  | some i ↦ if ltb i 3 then on_counter x i (λ k. write_counter k value) else write_control x value
]

unfoldable pub on_reset : Ctx → Ctx
on_reset x = record x { last_tstates = 0; clk_accum = 0; c0 = fresh; c1 = fresh; c2 = fresh }

-- `i8085_io_plugin_init`; a divisor of 0 becomes 1.
unfoldable pub io_plugin_init : Option (List ℕ) → Ctx
io_plugin_init config =
    let divisor = parse_num (cfg_value config (codes "clkdiv")) 1 in
    record {
      base = bit_and (parse_num (cfg_value config (codes "base")) 0x40) 0xff;
      clkdiv = if divisor == 0 then 1 else divisor;
      last_tstates = 0;
      clk_accum = 0;
      gate_mask = bit_and (parse_num (cfg_value config (codes "gate")) 7) 7;
      c0 = fresh;
      c1 = fresh;
      c2 = fresh;
    }
