-- ===== src/Plugins/Acia/Laws.antt =====
-- plugins/mc6850.cpp: what becomes of the bytes that the host's channels deliver.
use tool_i8085_trace.Prelude.{get_elem?, ◌^◌, ◌≤◌, ◌<◌, bit_and, sym, ◌≢◌, ◌||◌, some, ==_iff}
use tool_i8085_trace.Prelude.{
  ℕ, ◌+◌, ◌%◌, ◌≡◌, Bool, true, false, List, [], ◌∷◌, ◌++◌, arith, ◌==◌, if◌then◌else◌,
}
use mathlib.Core.List.{append-nil, append_assoc}
use tool_i8085_trace.Plugins.Acia.{
  Ctx, peek_script, take_queued, receive, on_io_post_read, set_rts, write_control, on_io_write,
}

-- What the CPU can still read: the register, then the queue.
abbrev pub pending : Ctx → List ℕ
pending x = if x.rdr_full then x.rdr_byte ∷ x.rxq else x.rxq

-- What happens to the chip: a step with the bytes drained from the channels, the CPU's read of the
-- data port, and its writes of the control and the data port.
pub data Event : Type 0 where
  stepped : List ℕ → ℕ → Event
  read : Event
  control : ℕ → Event
  transmit : ℕ → Event

abbrev pub happen : Ctx → Event → Ctx
happen x (stepped received step) = receive x received step
happen x read = on_io_post_read x x.data_port
happen x (control value) = write_control x value
happen x (transmit value) = on_io_write x x.data_port value

-- The bytes that an event hands to the CPU, and those it takes from the channels.
abbrev pub handed : Ctx → Event → List ℕ
handed x read = if x.rdr_full then x.rdr_byte ∷ [] else []
handed x (stepped received step) = []
handed x (control value) = []
handed x (transmit value) = []

abbrev pub arrived : Event → List ℕ
arrived (stepped received step) = received
arrived read = []
arrived (control value) = []
arrived (transmit value) = []

-- A run of events: the chip after it, and all the bytes that it hands to the CPU, in order.
abbrev pub run : Ctx → List Event → Ctx
run x [] = x
run x (e ∷ es) = run (happen x e) es

abbrev pub delivered : Ctx → List Event → List ℕ
delivered x [] = []
delivered x (e ∷ es) = handed x e ++ delivered (happen x e) es

abbrev pub supplied : List Event → List ℕ
supplied [] = []
supplied (e ∷ es) = arrived e ++ supplied es

abbrev pub is_master_reset : Event → Bool
is_master_reset (control value) = value % 4 == 3
is_master_reset (stepped received step) = false
is_master_reset read = false
is_master_reset (transmit value) = false

abbrev pub has_reset : List Event → Bool
has_reset [] = false
has_reset (e ∷ es) = is_master_reset e || has_reset es

-- Without a script the register is filled from the channels alone.
peek_script_unscripted : (x : Ctx) (step : ℕ) → x.rx ≡ [] → peek_script x step ≡ x
unfolding peek_script
peek_script_unscripted x step e = ground arith

take_queued-pending :
    (x : Ctx) → (pending (take_queued x) ≡ pending x) × ((take_queued x).rx ≡ x.rx)
unfolding take_queued
take_queued-pending x = ground arith

receive-pending :
    (x : Ctx) (received : List ℕ) (step : ℕ)
    → x.rx ≡ []
    → (pending (receive x received step) ≡ pending x ++ received)
      × ((receive x received step).rx ≡ [])
unfolding receive
receive-pending x received step e = ground (
  arith,
  peek_script_unscripted (record x { last_step = step; rxq = x.rxq ++ received }) step e,
  take_queued-pending (record x { last_step = step; rxq = x.rxq ++ received }),
)

-- Every event but a master reset: what is handed out and what stays is what was there and what came.
happen-pending :
    (x : Ctx) (e : Event)
    → x.rx ≡ []
    → is_master_reset e ≡ false
    → (handed x e ++ pending (happen x e) ≡ pending x ++ arrived e) × ((happen x e).rx ≡ [])
unfolding on_io_post_read write_control set_rts on_io_write
happen-pending x (stepped received step) r m = receive-pending x received step r
happen-pending x read r m = ground (arith, append-nil (pending x), ==_iff x.data_port x.data_port)
happen-pending x (control value) r m = ground (arith, append-nil (pending x))
happen-pending x (transmit value) r m = ground (arith, append-nil (pending x))

-- The bytes of the channels reach the CPU in order, none lost and none twice, whatever the /RTS line
-- and the interrupts do: for a chip without a script, and events with no master reset among them,
-- what is read and then what is still pending is what was pending at first and then what came.
pub delivered_in_order :
    (es : List Event) (x : Ctx)
    → x.rx ≡ []
    → has_reset es ≡ false
    → delivered x es ++ pending (run x es) ≡ pending x ++ supplied es
delivered_in_order [] x r h = sym (append-nil (pending x))
delivered_in_order (e ∷ es) x r h =
    let y = happen x e in
    ground (
      arith,
      happen-pending x e r,
      delivered_in_order es y,
      append_assoc (handed x e) (delivered y es) (pending (run y es)),
      append_assoc (handed x e) (pending y) (supplied es),
      append_assoc (pending x) (arrived e) (supplied es),
    )

-- Reading a byte that came from a channel also moves the script on: for an idle chip whose next
-- scripted byte is not due, after a byte from a channel is read, the script goes on with the byte
-- behind the next one, which is never delivered.
live_read-skips :
    (x : Ctx) (live skipped next step later : ℕ)
    → x.rdr_full ≡ false
    → x.rts_asserted ≡ true
    → x.rxq ≡ []
    → step < x.next_arrival
    → get_elem? x.rx x.rx_pos ≡ some skipped
    → get_elem? x.rx (x.rx_pos + 1) ≡ some next
    → (step + x.bytegap) % 2 ^ 64 ≤ later
    → let y = receive x (live ∷ []) step in
      let z = receive (on_io_post_read y x.data_port) [] later in
      (y.rdr_byte ≡ live) × (z.rdr_full ≡ true) × (z.rdr_byte ≡ next)
unfolding receive peek_script take_queued on_io_post_read
live_read-skips x live skipped next step later f r q d s n t =
    ground (arith, ==_iff x.data_port x.data_port)

-- The scripted byte that is next, in the register or not, comes after a master reset: the reset
-- clears the register and stops /RTS, and after a control write that asserts /RTS, a step at
-- which the byte is due puts it into the register.
pub master_reset-redelivers :
    (x : Ctx) (byte value step : ℕ)
    → get_elem? x.rx x.rx_pos ≡ some byte
    → value % 4 ≢ 3
    → bit_and value 0x60 ≢ 0x40
    → x.next_arrival ≤ step
    → let y = write_control x 3 in
      let z = receive (write_control y value) [] step in
      (y.rdr_full ≡ false) × (y.rts_asserted ≡ false) × (z.rdr_full ≡ true) × (z.rdr_byte ≡ byte)
unfolding receive peek_script take_queued write_control set_rts
master_reset-redelivers x byte value step b v r d = ground (arith)
