-- ===== src/Runtime/Wiring.antt =====
-- src/io_runtime.cpp, include/i8085_io_plugin.h: the pin table, which connects the logic net to the
-- chips and to the CPU's lines, and `io_runtime_on_step`. A handle is an index of the table, and a
-- handle of the CPU has no plugin, where C keeps -1. A pin is found by the text "kind@base.Sub" or
-- "cpu.Pin" of the netlist. The bytes that the channels bring to a plugin are an argument.
pub mod Resolve
pub mod Laws
pub mod Netlist
pub mod Rom
use tool_i8085_trace.Prelude.{
  get_elem?, ℕ, zero, suc, ◌+◌, ◌*◌, ◌/◌, ◌%◌, ◌^◌, Bool, false, not, ◌&&◌, Option, none, some,
  List, [], ◌∷◌, ltb, ◌==◌, ◌!=◌, if◌then◌else◌, u16, strtoul, codes, same_text,
}
use Prim.Native.Nat.{ℕ}
use tool_i8085_trace.Prelude.{bit}
use tool_i8085_trace.Cpu.State.{State, set_sid_line, get_sod_line, trigger_interrupt}
use tool_i8085_trace.Plugins.Memory
use tool_i8085_trace.Plugins.Ppi
use tool_i8085_trace.Plugins.Ppi.{PinBus}
use tool_i8085_trace.Plugins.Pit
use tool_i8085_trace.Plugins.Acia
use tool_i8085_trace.Runtime.{Plugin, memory, i8255, pit8254, mc6850, Runtime}
use tool_i8085_trace.Net
use tool_i8085_trace.Net.{Drive, drv_0, drv_1, drv_z, Host, Net}
use tool_i8085_trace.Net.Gates.{Level, lvl_0, lvl_1, lvl_x}

pub record PinHandle : Type 0 where
  pub plugin : Option ℕ
  pub field : List ℕ
  pub bit : ℕ
  pub sub : List ℕ

-- What a plugin's `snapshot` tells of its pins: kind, base and the fields that are pin buses.
pub record Snapshot : Type 0 where
  pub kind : List ℕ
  pub base : ℕ
  pub pins : List (List ℕ × PinBus)

abbrev pub one_pin : ℕ → ℕ → ℕ → PinBus
one_pin level is_input hi_z = record { width = 1; level = level; is_input = is_input; hi_z = hi_z }

unfoldable pub snapshot : Plugin → Snapshot
snapshot (memory c) = record { kind = codes "memory"; base = u16 c.base; pins = [] }
snapshot (i8255 c) = record {
  kind = codes "i8255";
  base = c.base;
  pins =
      (codes "A", Ppi.bus_of c Ppi.a)
      ∷ (codes "B", Ppi.bus_of c Ppi.b)
      ∷ (codes "C", Ppi.bus_of c Ppi.c)
      ∷ [];
}
snapshot (pit8254 c) = record {
  kind = codes "pit8254";
  base = c.base;
  pins =
      (codes "GATE", record { width = 3; level = c.gate_mask % 8; is_input = 7; hi_z = 0 })
      ∷ (
        codes "OUT",
        record {
          width = 3;
          level = bit c.c0.out + bit c.c1.out * 2 + bit c.c2.out * 4;
          is_input = 0;
          hi_z = 0;
        },
      )
      ∷ [];
}
snapshot (mc6850 c) = record {
  kind = codes "mc6850";
  base = c.ctrl_port;
  pins =
      (codes "RTS", one_pin (bit c.rts_asserted) 0 0)
      ∷ (codes "IRQ", one_pin 0 0 (bit (not (Acia.irq_asserted c))))
      ∷ (codes "CTS", one_pin (c.cts_level % 2) 1 0)
      ∷ (codes "DCD", one_pin (c.dcd_level % 2) 1 0)
      ∷ [];
}

-- `(mask >> bit) & 1`
abbrev pub bit_at : ℕ → ℕ → Bool
bit_at mask i = mask / 2 ^ i % 2 == 1

-- The first bus of a name.
unfoldable pub find_bus : List ℕ → List (List ℕ × PinBus) → Option PinBus
find_bus field [] = none
find_bus field ((name, bus) ∷ pins) =
    let rest = find_bus field pins in if same_text field name then some bus else rest

-- The same that is wide enough, which `rt_resolve` looks for.
unfoldable pub find_pin : List ℕ → ℕ → List (List ℕ × PinBus) → Option PinBus
find_pin field i [] = none
find_pin field i ((name, bus) ∷ pins) =
    let rest = find_pin field i pins in
    if same_text field name && ltb i bus.width then some bus else rest

-- The bus of a handle, where the pin is on it.
unfoldable pub bus_at : List Plugin → PinHandle → Option PinBus
bus_at plugins ph = elim ph.plugin [
  | none ↦ none
  | some idx ↦ elim (get_elem? plugins idx) [
    | none ↦ none
    | some p ↦ elim (find_bus ph.field (snapshot p).pins) [
      | none ↦ none
      | some bus ↦ if ltb ph.bit bus.width then some bus else none
    ]
  ]
]

-- `rt_is_output` for the handle's entry.
unfoldable pub pin_is_output : List Plugin → PinHandle → Bool
pin_is_output plugins ph = elim ph.plugin [
  | none ↦ same_text ph.field (codes "SOD")
  | some idx ↦ elim (bus_at plugins ph) [
    | none ↦ false
    | some bus ↦ not (bit_at bus.is_input ph.bit)
  ]
]

module _ {D : Type 0} where
  -- `rt_read_output`
  unfoldable pub pin_drive : State (Runtime D) → PinHandle → Drive
  pin_drive s ph = elim ph.plugin [
    | none ↦
        if same_text ph.field (codes "SOD")
        then (if get_sod_line s != 0 then drv_1 else drv_0)
        else drv_z
    | some idx ↦ elim (bus_at s.world.plugins ph) [
      | none ↦ drv_z
      | some bus ↦
          if bit_at bus.hi_z ph.bit then drv_z else if bit_at bus.level ph.bit then drv_1 else drv_0
    ]
  ]

  -- The CPU's part of `rt_write_input`; X is inactive.
  unfoldable pub drive_cpu : State (Runtime D) → List ℕ → ℕ → State (Runtime D)
  drive_cpu s pin active =
      if same_text pin (codes "RST7.5")
      then (trigger_interrupt s 75 active).0
      else if same_text pin (codes "RST6.5")
      then (trigger_interrupt s 65 active).0
      else if same_text pin (codes "RST5.5")
      then (trigger_interrupt s 55 active).0
      else if same_text pin (codes "TRAP")
      then (trigger_interrupt s 45 active).0
      else if same_text pin (codes "SID")
      then set_sid_line s active
      else s

-- The number of a level, as `pin_set` takes it.
abbrev pub level_number : Level → ℕ
level_number lvl_0 = 0
level_number lvl_1 = 1
level_number lvl_x = 2

abbrev pub port_named : ℕ → Ppi.Port
port_named letter =
    if letter == b'A'
    then Ppi.a
    else if letter == b'B'
    then Ppi.b
    else if letter == b'C'
    then Ppi.c
    else Ppi.control

-- The slots' `pin_set`; the memory and the timer leave it NULL.
unfoldable pub pin_set : Plugin → List ℕ → ℕ → Plugin
pin_set (memory c) sub level = memory c
pin_set (i8255 c) [] level = i8255 c
pin_set (i8255 c) (letter ∷ digits) level =
    i8255 (Ppi.pin_set c (port_named letter) (strtoul 10 digits).0 level)
pin_set (pit8254 c) sub level = pit8254 c
pin_set (mc6850 c) sub level = mc6850 (
    Acia.pin_set c
      (if same_text sub (codes "CTS")
        then Acia.cts
        else if same_text sub (codes "DCD")
        then Acia.dcd
        else Acia.other_pin)
      level)

abbrev pub first_of : List (List ℕ) → List ℕ
first_of [] = []
first_of (bs ∷ rest) = bs

abbrev pub drop_one : List (List ℕ) → List (List ℕ)
drop_one [] = []
drop_one (bs ∷ rest) = rest

unfoldable pub update_at : List Plugin → ℕ → (Plugin → Plugin) → List Plugin
update_at [] i f = []
update_at (p ∷ ps) zero f = f p ∷ ps
update_at (p ∷ ps) (suc i) f = p ∷ update_at ps i f

module _ {D : Type 0} where
  -- `rt_write_input` for the handle's entry.
  unfoldable pub drive_pin : State (Runtime D) → PinHandle → Level → State (Runtime D)
  drive_pin s ph level = elim ph.plugin [
    | none ↦ drive_cpu s ph.field (elim level [ lvl_1 ↦ 1 | lvl_0 ↦ 0 | lvl_x ↦ 0 ])
    | some idx ↦
        let r = s.world in
        record s {
          world = record r {
            plugins = update_at r.plugins idx (λ p. pin_set p ph.sub (level_number level));
          };
        }
  ]

  -- The callbacks of `io_runtime_on_step`, over the pin table. Warnings are text.
  abbrev pub wires : List PinHandle → Host (State (Runtime D))
  wires table = record {
    read_output = λ s h. elim (get_elem? table h) [ none ↦ drv_z | some ph ↦ pin_drive s ph ];
    write_input =
        λ s h level. elim (get_elem? table h) [ none ↦ s | some ph ↦ drive_pin s ph level ];
    warn = λ s w. s;
    is_output = some (λ s h. elim (get_elem? table h) [
      | none ↦ false
      | some ph ↦ pin_is_output s.world.plugins ph
    ]);
  }

  -- The plugins' `on_step`, in load order, with the bytes that the channels bring to each.
  unfoldable pub step_plugins :
      List Plugin
      → State (Runtime D)
      → List (List ℕ)
      → Bool
      → ℕ
      → ℕ
      → List Plugin × State (Runtime D)
  step_plugins [] s received wiring step tstates = ([], s)
  step_plugins (memory c ∷ ps) s received wiring step tstates =
      let (rest, t) = step_plugins ps s (drop_one received) wiring step tstates in
      (memory c ∷ rest, t)
  step_plugins (i8255 c ∷ ps) s received wiring step tstates =
      let (rest, t) = step_plugins ps s (drop_one received) wiring step tstates in
      (i8255 c ∷ rest, t)
  step_plugins (pit8254 c ∷ ps) s received wiring step tstates =
      let (rest, t) = step_plugins ps s (drop_one received) wiring step tstates in
      (pit8254 (Pit.on_step c tstates) ∷ rest, t)
  step_plugins (mc6850 c ∷ ps) s received wiring step tstates =
      let (d, t) = Acia.on_step c s (first_of received) wiring step in
      let (rest, u) = step_plugins ps t (drop_one received) wiring step tstates in
      (mc6850 d ∷ rest, u)

  -- `io_runtime_on_step`
  unfoldable pub on_step :
      Net
      → Bool
      → List PinHandle
      → State (Runtime D)
      → List (List ℕ)
      → ℕ
      → ℕ
      → Net × State (Runtime D)
  on_step net wiring table s received step tstates =
      let (plugins, t) = step_plugins s.world.plugins s received wiring step tstates in
      let r = t.world in
      let u = record t { world = record r { plugins = plugins } } in
      if wiring then Net.step (wires table) net u else (net, u)
