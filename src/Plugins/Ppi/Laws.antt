-- ===== src/Plugins/Ppi/Laws.antt =====
-- plugins/i8255.cpp: what the CPU and the pins see of the 8255.
use tool_i8085_trace.Prelude.Bits.{and_digit}
use tool_i8085_trace.Prelude.Bits.{or_digit}
use tool_i8085_trace.Prelude.{
  ℕ, ◌+◌, ◌-◌, ◌/◌, ◌%◌, ◌^◌, ◌<◌, bit_and, bit_or, ◌≡◌, refl, ◌≢◌, Bool, true, false, ◌&&◌, arith,
  ◌==◌, if◌then◌else◌, u8, word,
}
use tool_i8085_trace.Prelude.Bits.{or_digit, and_digit, and_bit, all_below, all_below_sound}
use tool_i8085_trace.Plugins.Ppi.{
  Ctx, Port, a, b, c, control, read_port, write_port, write_control, mode_set, bit_set_reset,
  on_reset, bus_of,
}

-- The external pins of a port.
abbrev pub pins : Ctx → Port → ℕ
pins x a = x.in_a
pins x b = x.in_b
pins x c = x.in_c
pins x control = 0

-- The digit of a number at a place.
abbrev pub digit : ℕ → ℕ → ℕ
digit n j = n / 2 ^ j % 2

masks_table :
    all_below 8 (λ j. digit 0xff j == 1 && digit 0xf0 j + digit 0x0f j == 1 && digit 0 j == 0)
    ≡ true
unfolding all_below
masks_table = refl

masks : (j : ℕ) → j < 8 → (digit 0xff j ≡ 1) × (digit 0xf0 j + digit 0x0f j ≡ 1) × (digit 0 j ≡ 0)
masks j h = ground (
  arith,
  all_below_sound 8 (λ j. digit 0xff j == 1 && digit 0xf0 j + digit 0x0f j == 1 && digit 0 j == 0) j
      masks_table,
)

-- Port C with its halves `hi` and `lo` in or out, of pins `p` and latch `v`.
port_c_digit :
    (hi lo : Bool) (p v j : ℕ)
    → j < 8
    → digit
        (bit_or
          (if hi then bit_and p 0xf0 else bit_and v 0xf0)
          (if lo then bit_and p 0x0f else bit_and v 0x0f))
        j
      ≡ (if digit (bit_or (if lo then 0x0f else 0) (if hi then 0xf0 else 0)) j == 1
          then digit p j
          else digit v j)
port_c_digit true true p v j h = ground (
  arith,
  masks j h,
  or_digit j (bit_and p 0xf0) (bit_and p 0x0f),
  and_digit j p 0xf0,
  and_digit j p 0x0f,
)
port_c_digit true false p v j h = ground (
  arith,
  masks j h,
  or_digit j (bit_and p 0xf0) (bit_and v 0x0f),
  and_digit j p 0xf0,
  and_digit j v 0x0f,
)
port_c_digit false true p v j h = ground (
  arith,
  masks j h,
  or_digit j (bit_and v 0xf0) (bit_and p 0x0f),
  and_digit j v 0xf0,
  and_digit j p 0x0f,
)
port_c_digit false false p v j h = ground (
  arith,
  masks j h,
  or_digit j (bit_and v 0xf0) (bit_and v 0x0f),
  and_digit j v 0xf0,
  and_digit j v 0x0f,
)

-- After an OUT to one of the three data ports, an IN gives at each of the eight places the pin,
-- where `snapshot` says that the pin is an input, and the digit written where it says that it is
-- an output.
pub read_port-write_port :
    (x : Ctx) (p : Port) (value j : ℕ)
    → p ≢ control
    → j < 8
    → digit (read_port (write_port x p value) p) j
      ≡ (if digit (bus_of x p).is_input j == 1 then digit (pins x p) j else digit value j)
unfolding read_port write_port bus_of
read_port-write_port x a value j data_port h = ground (arith, masks j h)
read_port-write_port x b value j data_port h = ground (arith, masks j h)
read_port-write_port x c value j data_port h =
    port_c_digit x.c_upper_in x.c_lower_in x.in_c value j h
read_port-write_port x control value j data_port h = absurd (data_port refl)

-- A reset is the mode-set word 0x9B: mode 0, all ports input, latches clear.
pub on_reset-mode_set : (x : Ctx) → on_reset x ≡ write_control x 0x9b
unfolding on_reset write_control mode_set
on_reset-mode_set x = refl

-- Bit set/reset: the bit that the word names takes the word's lowest bit, and the others stay.
bsr_law : ℕ → ℕ → ℕ → Bool
bsr_law old val j =
    let mask = 2 ^ (val / 2 % 8) in
    let new : ℕ = if val % 2 == 1 then u8 (bit_or old mask) else bit_and old (255 - mask) in
    (new / 2 ^ j % 2) == (if j == val / 2 % 8 then val % 2 else old / 2 ^ j % 2)

bsr_table : all_below 256 (λ old. all_below 16 (λ val. all_below 8 (λ j. bsr_law old val j))) ≡ true
unfolding all_below bsr_law
bsr_table = refl

bsr_digit : (old val j : ℕ) → old < 256 → val < 16 → j < 8 → bsr_law old val j ≡ true
bsr_digit old val j ho hv hj =
    all_below_sound 8 _ j (all_below_sound 16 _ val (all_below_sound 256 _ old bsr_table ho) hv) hj

-- With a byte in Port C's latch, a control word below 0x80 sets or resets one bit of it: the
-- place that it names takes the word's lowest bit, and the other places and everything else stay.
pub write_control-bit :
    (x : Ctx) (val j : ℕ)
    → x.out_c < 256
    → val < 128
    → j < 8
    → (digit (write_control x val).out_c j
        ≡ (if j == val / 2 % 8 then val % 2 else digit x.out_c j))
      × (write_control x val ≡ record x { out_c = (write_control x val).out_c })
unfolding write_control bit_set_reset bsr_law
write_control-bit x val j old word place =
    let low = val % 16 in
    let same_place : low / 2 % 8 ≡ val / 2 % 8 = omega arith in
    let same_bit : low % 2 ≡ val % 2 = omega arith in
    ground (arith, bsr_digit x.out_c low j old (omega arith) place, and_bit 7 val)
