-- ===== src/Plugins/Acia.antt =====
-- plugins/mc6850.cpp: the 6850 ACIA. What the host's channels deliver in a step is an argument of
-- `on_step`; what the CPU transmits and the /RTS transitions are logged in `sent` and `rts_log`,
-- newest first, for the files and channels that they go to. The display-only fields `lastTx`,
-- `lastRx` are options, with `none` for -1.
pub mod Laws
pub mod Config
use tool_i8085_trace.Prelude.{
  get_elem?, ℕ, ◌+◌, ◌%◌, bit_and, bit_or, Bool, true, false, not, ◌&&◌, Option, none, some, List,
  [], ◌∷◌, ◌++◌, leb, ◌==◌, ◌!=◌, if◌then◌else◌, bit, agree, u64,
}
use tool_i8085_trace.Cpu.State.{State, store}

pub record Ctx : Type 0 where
  pub ctrl_port : ℕ
  pub data_port : ℕ
  pub rx : List ℕ
  pub rx_pos : ℕ
  pub rdr_full : Bool
  pub rdr_byte : ℕ
  pub next_arrival : ℕ
  pub bytegap : ℕ
  pub last_step : ℕ
  pub rx_int_enabled : Bool
  pub rts_asserted : Bool
  pub last_tx : Option ℕ
  pub last_rx : Option ℕ
  pub cts_level : ℕ
  pub dcd_level : ℕ
  pub rxq : List ℕ
  pub sent : List ℕ
  pub rts_log : List (Bool × ℕ)

unfoldable pub on_reset : Ctx → Ctx
on_reset x = record x {
  rx_pos = 0;
  rdr_full = false;
  next_arrival = 0;
  rx_int_enabled = false;
  rts_asserted = true;
}

-- A scripted byte, when its time has come; `rx_pos` stays until the CPU reads it.
unfoldable pub peek_script : Ctx → ℕ → Ctx
peek_script x step =
    if not x.rdr_full && x.rts_asserted && leb x.next_arrival step
    then elim (get_elem? x.rx x.rx_pos) [
      | none ↦ x
      | some byte ↦ record x { rdr_byte = byte; rdr_full = true }
    ]
    else x

-- The oldest byte of the queue, into a free register.
unfoldable pub take_queued : Ctx → Ctx
take_queued x = elim x.rxq [
  | [] ↦ x
  | byte ∷ rest ↦
      if not x.rdr_full && x.rts_asserted
      then record x { rdr_byte = byte; rxq = rest; rdr_full = true }
      else x
]

-- The register's part of `on_step`: the channels are drained, then a byte goes in.
unfoldable pub receive : Ctx → List ℕ → ℕ → Ctx
receive x received step =
    let y = record x { last_step = step; rxq = x.rxq ++ received } in
    take_queued (peek_script y step)

-- With no netlist, a pending byte raises RST 7.5.
unfoldable pub on_step : {W : Type 0} → Ctx → State W → List ℕ → Bool → ℕ → Ctx × State W
on_step x state received wiring_active step =
    let y = receive x received step in
    (
      y,
      if y.rdr_full && y.rx_int_enabled && not wiring_active
          then record state { r7_latch = 1 }
          else state,
    )

unfoldable pub on_io_pre_read : {W : Type 0} → Ctx → State W → ℕ → State W
on_io_pre_read x state port =
    if port == x.ctrl_port
    then record state { io = store state.io x.ctrl_port (bit_or 0x02 (bit x.rdr_full)) }
    else if port == x.data_port
    then record state { io = store state.io x.data_port x.rdr_byte }
    else state

unfoldable pub on_io_post_read : Ctx → ℕ → Ctx
on_io_post_read x port =
    if port == x.data_port && x.rdr_full
    then record x {
      last_rx = some x.rdr_byte;
      rdr_full = false;
      rx_pos = x.rx_pos + 1;
      next_arrival = u64 (x.last_step + x.bytegap);
    }
    else x

-- A change of /RTS is logged.
unfoldable pub set_rts : Ctx → Bool → Ctx
set_rts x new_rts =
    if agree new_rts x.rts_asserted
    then x
    else record x { rts_asserted = new_rts; rts_log = (new_rts, x.last_step) ∷ x.rts_log }

unfoldable pub write_control : Ctx → ℕ → Ctx
write_control x value =
    if value % 4 == 3
    then set_rts (record x { rdr_full = false; rx_int_enabled = false }) false
    else set_rts (record x { rx_int_enabled = bit_and value 0x80 != 0 })
        (bit_and value 0x60 != 0x40)

unfoldable pub on_io_write : Ctx → ℕ → ℕ → Ctx
on_io_write x port value =
    if port == x.data_port
    then record x { last_tx = some value; sent = value ∷ x.sent }
    else if port == x.ctrl_port
    then write_control x value
    else x

-- `irqAsserted` of `snapshot`: the /IRQ pin is driven low, and else released.
unfoldable pub irq_asserted : Ctx → Bool
irq_asserted x = x.rdr_full && x.rx_int_enabled

-- The modem inputs, which `pin_set` names by a string.
pub data ModemPin : Type 0 where
  cts dcd other_pin : ModemPin

-- `pin_set`: X is 0.
unfoldable pub pin_set : Ctx → ModemPin → ℕ → Ctx
pin_set x pin level =
    let lv : ℕ = if level == 1 then 1 else 0 in
    elim pin [
      | cts ↦ record x { cts_level = lv }
      | dcd ↦ record x { dcd_level = lv }
      | other_pin ↦ x
    ]
