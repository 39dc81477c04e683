-- ===== src/Tests/BoardTests.antt =====
-- plugins and src/io_runtime.cpp: the theorems at a concrete board.
use tool_i8085_trace.Prelude.{
  ◌+◌, ◌-◌, ◌*◌, ◌≤◌, ◌<◌, ◌≡◌, refl, ◌≢◌, true, false, none, List, [], ◌∷◌, ◌++◌, arith, ◌==◌,
  ◌!=◌, if◌then◌else◌,
}
use tool_i8085_trace.Tests.{cpu, rom}
use tool_i8085_trace.Prelude.{ℕ}
use tool_i8085_trace.Cpu.State.{State}
use tool_i8085_trace.Plugins.Memory
use tool_i8085_trace.Plugins.Ppi
use tool_i8085_trace.Plugins.Ppi.Laws.{digit, read_port-write_port, write_control-bit}
use tool_i8085_trace.Plugins.Pit
use tool_i8085_trace.Plugins.Pit.Laws.{
  ticks, two_bytes, write_counter-two_bytes, latch_read, on_step-on_step,
}
use tool_i8085_trace.Plugins.Pit.Modes.{rate_generator, square_wave, terminal_count}
use tool_i8085_trace.Plugins.Acia
use tool_i8085_trace.Plugins.Acia.Laws.{
  Event, stepped, read, control, pending, delivered, run, delivered_in_order,
  master_reset-redelivers,
}
use tool_i8085_trace.Runtime.{
  memory, i8255, pit8254, DiskApi, Runtime, on_io_pre_read, pre_read_all,
}
use tool_i8085_trace.Runtime.Ports.{last_answers}

-- A timer at 0x10 on a clock of four T-states, its counter 0 in `mode` with two-byte counts.
abbrev counter_in : ℕ → Pit.Counter
counter_in mode = record (Pit.fresh) { mode = mode; out = true }

abbrev pub timer : Pit.Ctx
timer = record {
  base = 0x10;
  clkdiv = 4;
  last_tstates = 100;
  clk_accum = 3;
  gate_mask = 7;
  c0 = counter_in 2;
  c1 = Pit.fresh;
  c2 = Pit.fresh;
}

-- A PPI at 0x10, with Port A an input, Port B an output and a split Port C.
abbrev ppi : Ppi.Ctx
ppi = record {
  base = 0x10;
  ctrl = 0x98;
  a_in = true;
  b_in = false;
  c_upper_in = true;
  c_lower_in = false;
  group_a_mode = 0;
  group_b_mode = 0;
  out_a = 0;
  out_b = 0;
  out_c = 0;
  in_a = 0x5a;
  in_b = 0;
  in_c = 0xc3;
}

-- A serial port at 0x80, its receiver empty.
abbrev serial : List ℕ → Acia.Ctx
serial script = record {
  ctrl_port = 0x80;
  data_port = 0x81;
  rx = script;
  rx_pos = 0;
  rdr_full = false;
  rdr_byte = 0;
  next_arrival = 50;
  bytegap = 10;
  last_step = 0;
  rx_int_enabled = false;
  rts_asserted = true;
  last_tx = none;
  last_rx = none;
  cts_level = 0;
  dcd_level = 0;
  rxq = [];
  sent = [];
  rts_log = [];
}

data_port : Ppi.c ≢ Ppi.control
data_port = ground arith

read_port-write_port_example : digit (Ppi.read_port (Ppi.write_port ppi Ppi.c 0x0f) Ppi.c) 6 ≡ 1
unfolding Ppi.bus_of
read_port-write_port_example = read_port-write_port ppi Ppi.c 0x0f 6 data_port (omega arith)

write_control-bit_example :
    (digit (Ppi.write_control ppi 0x07).out_c 3 ≡ 1)
    × (Ppi.write_control ppi 0x07 ≡ record ppi { out_c = (Ppi.write_control ppi 0x07).out_c })
write_control-bit_example = write_control-bit ppi 0x07 3 (omega arith) (omega arith) (omega arith)

five_long : 2 * 2 < Pit.full_count (Pit.load_counter (counter_in 3) 5)
unfolding Pit.full_count Pit.load_counter
five_long = omega arith

five_short : Pit.full_count (Pit.load_counter (counter_in 3) 5) ≤ 6
unfolding Pit.full_count Pit.load_counter
five_short = omega arith

five_inside : (mode : ℕ) → 4 < Pit.full_count (Pit.load_counter (counter_in mode) 5)
unfolding Pit.full_count Pit.load_counter
five_inside mode = omega arith

rate_generator_example :
    let t = Pit.load_counter (counter_in 2) 5 in
    (ticks (Pit.full_count t) t ≡ t)
    × ((ticks 4 t).count + 4 ≡ Pit.full_count t)
    × ((ticks 4 t).out ≡ ((ticks 4 t).count != 1))
rate_generator_example = rate_generator (counter_in 2) 5 4 refl (omega arith) (five_inside 2)

square_wave_example :
    let t = Pit.load_counter (counter_in 3) 5 in
    (ticks 3 t ≡ record t { out = false }) × (ticks 3 (record t { out = false }) ≡ t)
square_wave_example = square_wave (counter_in 3) 5 2 refl five_long five_short

terminal_count_example :
    let t = Pit.load_counter (counter_in 0) 5 in
    (ticks 4 t ≡ record t { count = Pit.full_count t - 4 })
    × ((ticks 4 t).out ≡ false)
    × (ticks (Pit.full_count t) t ≡ record t { count = 0; out = true })
terminal_count_example = terminal_count (counter_in 0) 5 4 refl (five_inside 0)

latch_read_example :
    let k = record (counter_in 2) { count = 0x1234; running = true } in
    let t = ticks 7 (Pit.latch k) in
    let u = ticks 9 (Pit.advance_read t) in
    (Pit.read_counter_byte u * 256 + Pit.read_counter_byte t ≡ 0x1234)
    × ((Pit.advance_read u).latched ≡ false)
latch_read_example =
    latch_read (record (counter_in 2) { count = 0x1234; running = true }) 7 9 refl refl

write_counter-two_bytes_example :
    let t = two_bytes (counter_in 2) 0 0 in
    (t.initial ≡ 0)
    × (t.count ≡ 0x10000)
    × (t.running ≡ true)
    × (t.out ≡ true)
    × (t.write_msb_next ≡ false)
write_counter-two_bytes_example =
    write_counter-two_bytes (counter_in 2) 0 0 refl refl (omega arith) (omega arith)

on_step-on_step_example : Pit.on_step (Pit.on_step timer 103) 118 ≡ Pit.on_step timer 118
on_step-on_step_example =
    on_step-on_step timer 103 118 (omega arith) (omega arith) (omega arith) (omega arith)
      (omega arith) (omega arith)

abbrev session : List Event
session =
    stepped (0x41 ∷ 0x42 ∷ []) 1
    ∷ control 0x40
    ∷ read
    ∷ stepped (0x43 ∷ []) 2
    ∷ control 0x00
    ∷ stepped [] 3
    ∷ read
    ∷ []

delivered_in_order_example :
    delivered (serial []) session ++ pending (run (serial []) session) ≡ 0x41 ∷ 0x42 ∷ 0x43 ∷ []
delivered_in_order_example = delivered_in_order session (serial []) refl refl

abbrev scripted : Acia.Ctx
scripted = serial (0x61 ∷ 0x62 ∷ [])

master_reset-redelivers_example :
    let y = Acia.write_control (Acia.receive scripted [] 50) 3 in
    let z = Acia.receive (Acia.write_control y 0x15) [] 51 in
    (y.rdr_full ≡ false) × (y.rts_asserted ≡ false) × (z.rdr_full ≡ true) × (z.rdr_byte ≡ 0x61)
unfolding Acia.receive Acia.peek_script Acia.take_queued
master_reset-redelivers_example =
    master_reset-redelivers (Acia.receive scripted [] 50) 0x61 0x15 51 refl (omega arith)
      (omega arith) (omega arith)

-- No disk emulator.
abbrev pub no_disk : DiskApi ℕ
no_disk = record {
  active = λ d. false;
  on_io_write = λ d mem port val. d;
  on_io_pre_read = λ d io port. io;
}

abbrev pub system : State (Runtime ℕ)
system = record {
  a = 0x99;
  b = 0;
  c = 0;
  d = 0;
  e = 0;
  h = 0x01;
  l = 0x00;
  sp = 0x2000;
  pc = 0x0200;
  cc = cpu.cc;
  int_enable = 0;
  int_enable_delay = 0;
  r5_mask = 0;
  r6_mask = 0;
  r7_mask = 0;
  pending_trap = 0;
  pending_r5 = 0;
  pending_r6 = 0;
  r7_latch = 0;
  pending_int = 0;
  int_rst_number = 0;
  sid_line = 0;
  sod_line = 0;
  hlt_enable = 0;
  memory = λ x. if x == 0x0200 then 0x77 else rom x;
  io = λ x. 0;
  world = record {
    plugins = i8255 ppi ∷ memory (Memory.init 0 0x1000 false false) ∷ pit8254 timer ∷ [];
    any_mem_write = true;
    disk = 0;
  };
}

last_answers_example :
    pre_read_all
      (pit8254 timer ∷ i8255 ppi ∷ memory (Memory.init 0 0x1000 false false) ∷ [])
      cpu
      0x10
    ≡ on_io_pre_read (i8255 ppi) (pre_read_all (pit8254 timer ∷ []) cpu 0x10) 0x10
last_answers_example =
    last_answers (pit8254 timer ∷ []) (memory (Memory.init 0 0x1000 false false) ∷ []) (i8255 ppi)
      cpu 0x10 refl
