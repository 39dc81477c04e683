-- ===== src/Plugins/Ppi.antt =====
-- plugins/i8255.cpp: the 8255 PPI in mode 0. A direction is true for an input; the bus copies
-- that `snapshot` fills are computed by `bus_of` on demand.
pub mod Laws
use tool_i8085_trace.Prelude.{
  ℕ, ◌+◌, ◌-◌, ◌/◌, ◌%◌, ◌^◌, bit_and, bit_or, Bool, true, Option, none, some, List, [], ◌∷◌, ◌==◌,
  ◌!=◌, if◌then◌else◌, u8,
}
use tool_i8085_trace.Plugins.Config.{cfg_value, parse_num}
use tool_i8085_trace.Prelude.{codes}
use tool_i8085_trace.Cpu.State.{State, store}

pub record Ctx : Type 0 where
  pub base : ℕ
  pub ctrl : ℕ
  pub a_in : Bool
  pub b_in : Bool
  pub c_upper_in : Bool
  pub c_lower_in : Bool
  pub group_a_mode : ℕ
  pub group_b_mode : ℕ
  pub out_a : ℕ
  pub out_b : ℕ
  pub out_c : ℕ
  pub in_a : ℕ
  pub in_b : ℕ
  pub in_c : ℕ

-- The ports by number; any other number reads the control register.
pub data Port : Type 0 where
  a b c control : Port

unfoldable pub read_port : Ctx → Port → ℕ
read_port x a = if x.a_in then x.in_a else x.out_a
read_port x b = if x.b_in then x.in_b else x.out_b
read_port x c =
    let upper : ℕ = if x.c_upper_in then bit_and x.in_c 0xf0 else bit_and x.out_c 0xf0 in
    let lower : ℕ = if x.c_lower_in then bit_and x.in_c 0x0f else bit_and x.out_c 0x0f in
    bit_or upper lower
read_port x control = x.ctrl

-- Mode-set: the directions, and the output latches cleared.
unfoldable pub mode_set : Ctx → ℕ → Ctx
mode_set x val = record x {
  ctrl = val;
  group_a_mode = val / 32 % 4;
  a_in = val / 16 % 2 == 1;
  c_upper_in = val / 8 % 2 == 1;
  group_b_mode = val / 4 % 2;
  b_in = val / 2 % 2 == 1;
  c_lower_in = val % 2 == 1;
  out_a = 0;
  out_b = 0;
  out_c = 0;
}

-- Bit set/reset on Port C; `~(1u << bit)` cut to a byte is 255 less the bit.
unfoldable pub bit_set_reset : Ctx → ℕ → Ctx
bit_set_reset x val =
    let mask = 2 ^ (val / 2 % 8) in
    record x {
      out_c = if val % 2 == 1 then u8 (bit_or x.out_c mask) else bit_and x.out_c (255 - mask);
    }

unfoldable pub write_control : Ctx → ℕ → Ctx
write_control x val = if bit_and val 0x80 != 0 then mode_set x val else bit_set_reset x val

unfoldable pub write_port : Ctx → Port → ℕ → Ctx
write_port x a val = record x { out_a = val }
write_port x b val = record x { out_b = val }
write_port x c val = record x { out_c = val }
write_port x control val = write_control x val

-- `(int)port - (int)base`, where it is 0 to 3.
unfoldable pub port_of : Ctx → ℕ → Option Port
port_of x port =
    if port == x.base
    then some a
    else if port == x.base + 1
    then some b
    else if port == x.base + 2
    then some c
    else if port == x.base + 3
    then some control
    else none

unfoldable pub on_io_pre_read : {W : Type 0} → Ctx → State W → ℕ → State W
on_io_pre_read x state port = elim (port_of x port) [
  | none ↦ state
  | some i ↦ record state { io = store state.io port (read_port x i) }
]

unfoldable pub on_io_write : Ctx → ℕ → ℕ → Ctx
on_io_write x port value = elim (port_of x port) [ none ↦ x | some i ↦ write_port x i value ]

unfoldable pub on_reset : Ctx → Ctx
on_reset x = record x {
  ctrl = 0x9b;
  a_in = true;
  b_in = true;
  c_upper_in = true;
  c_lower_in = true;
  group_a_mode = 0;
  group_b_mode = 0;
  out_a = 0;
  out_b = 0;
  out_c = 0;
}

-- `pin_set` on the pin `letter` and `bit`, which `pin[0]` and `atoi(pin + 1) & 7` give.
unfoldable pub pin_set : Ctx → Port → ℕ → ℕ → Ctx
pin_set x port n level =
    let mask = 2 ^ (n % 8) in
    let val : ℕ = if level == 1 then mask else 0 in
    let driven = λ (old : ℕ). u8 (bit_or (bit_and old (255 - mask)) val) in
    elim port [
      | a ↦ record x { in_a = driven x.in_a }
      | b ↦ record x { in_b = driven x.in_b }
      | c ↦ record x { in_c = driven x.in_c }
      | control ↦ x
    ]

-- I8085PinBus
pub record PinBus : Type 0 where
  pub width : ℕ
  pub level : ℕ
  pub is_input : ℕ
  pub hi_z : ℕ

-- The pin bus of a port in `snapshot`.
unfoldable pub bus_of : Ctx → Port → PinBus
bus_of x a = record {
  width = 8;
  level = read_port x a;
  is_input = if x.a_in then 0xff else 0;
  hi_z = 0;
}
bus_of x b = record {
  width = 8;
  level = read_port x b;
  is_input = if x.b_in then 0xff else 0;
  hi_z = 0;
}
bus_of x c = record {
  width = 8;
  level = read_port x c;
  is_input = bit_or (if x.c_lower_in then 0x0f else 0) (if x.c_upper_in then 0xf0 else 0);
  hi_z = 0;
}
bus_of x control = record { width = 0; level = 0; is_input = 0; hi_z = 0 }

-- `Ctx()`: every port an input.
abbrev pub power_on : Ctx
power_on = record {
  base = 0;
  ctrl = 0x9b;
  a_in = true;
  b_in = true;
  c_upper_in = true;
  c_lower_in = true;
  group_a_mode = 0;
  group_b_mode = 0;
  out_a = 0;
  out_b = 0;
  out_c = 0;
  in_a = 0;
  in_b = 0;
  in_c = 0;
}

-- An initial control word, where the settings have one.
unfoldable pub strapped : Ctx → List ℕ → Ctx
strapped x [] = x
strapped x (ch ∷ chs) = write_control x (u8 (parse_num (ch ∷ chs) 0x9b))

-- `i8085_io_plugin_init`
unfoldable pub io_plugin_init : Option (List ℕ) → Ctx
io_plugin_init config =
    strapped
      (record power_on {
        base = bit_and (parse_num (cfg_value config (codes "base")) 0) 0xff;
        in_a = u8 (parse_num (cfg_value config (codes "pa")) 0);
        in_b = u8 (parse_num (cfg_value config (codes "pb")) 0);
        in_c = u8 (parse_num (cfg_value config (codes "pc")) 0);
      })
      (cfg_value config (codes "ctrl"))
