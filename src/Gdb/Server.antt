-- ===== src/Gdb/Server.antt =====
-- src/gdb_stub.cpp: the loop of `gdb_main`, a packet at a time, and its running of the CPU.
-- The hooks of the run-time are arguments, and so is what the socket answers to the poll of `c`: by
-- the step, whether a Ctrl-C has come. `fire_timers` is the timer loop of src/main.cpp once more. The
-- set of breakpoints is its membership test. Listening and accepting are left out.

use tool_i8085_trace.Prelude.{
  length, ℕ, zero, suc, ◌+◌, ◌-◌, ◌/◌, ◌<◌, Bool, true, false, ◌&&◌, ◌||◌, none, some, List, [],
  ◌∷◌, ◌++◌, ltb, leb, ◌==◌, ◌!=◌, if◌then◌else◌, u16, u64, codes, same_text, starts_with,
  after_char, drop, take,
}
pub mod Laws
pub mod Features
pub mod Continue
use Prim.Native.Nat.{ℕ}
use tool_i8085_trace.Cpu.State.{State, ExecutionStats, Bus}
use tool_i8085_trace.Cpu.Step.{Stepped, emulate_op}
use tool_i8085_trace.Main.{PeriodicTimer, fire_timers, is_empty}
use tool_i8085_trace.Gdb.{parse_hex, recv_packet, packet}
use tool_i8085_trace.Gdb.Registers.{reg_count}
use tool_i8085_trace.Gdb.Packets.{
  e00, okay, read_all, write_all, read_one, write_one, read_memory, write_memory,
}

pub record Session (W : Type 0) : Type 0 where
  pub state : State W
  pub stats : ExecutionStats
  pub timers : List PeriodicTimer
  pub breakpoints : ℕ → Bool
  pub gdb_step : ℕ

-- What becomes of a packet: a reply, the end of the session with or without one, or `c` out of
-- rounds.
pub data Answer : Type 0 where
  reply : List ℕ → Answer
  killed : Answer
  detached : Answer
  still_running : Answer

-- The target description of the mode.
unfoldable pub target_xml : Bool → List ℕ
target_xml z80 =
    codes "<?xml version=\"1.0\"?>\n"
    ++ (codes "<!DOCTYPE target SYSTEM \"gdb-target.dtd\">\n"
        ++ (codes "<target version=\"1.0\">\n"
            ++ ((if z80
                  then codes "  <architecture>z80</architecture>\n"
                  else codes "  <architecture>i8085</architecture>\n")
                ++ codes "</target>\n")))

-- A part of a text, with `m` where more is left and `l` where it is the last.
unfoldable pub chunk_of : List ℕ → ℕ → ℕ → List ℕ
chunk_of xml offset len =
    if leb (length xml) offset
    then b'l' ∷ []
    else (let remaining = length xml - offset in
        let chunk = if ltb remaining len then remaining else len in
        (if leb (length xml) (offset + chunk) then b'l' else b'm') ∷ take chunk (drop offset xml))

-- `qXfer:features:read:target.xml:`
unfoldable pub read_features : Bool → List ℕ → List ℕ
read_features z80 args = elim (after_char b',' args) [
  | none ↦ e00
  | some rest ↦ chunk_of (target_xml z80) (parse_hex 0 args).0 (parse_hex 0 rest).0
]

-- The queries without state; a packet that is not supported has an empty reply.
unfoldable pub query : Bool → List ℕ → List ℕ
query z80 pkt =
    if starts_with (codes "qSupported") pkt
    then codes "PacketSize=4096;qXfer:features:read+"
    else if starts_with (codes "qXfer:features:read:target.xml:") pkt
    then read_features z80 (drop 31 pkt)
    else if same_text pkt (codes "qfThreadInfo")
    then codes "m1"
    else if same_text pkt (codes "qsThreadInfo")
    then codes "l"
    else if same_text pkt (codes "qC")
    then codes "QC1"
    else if same_text pkt (codes "qAttached")
    then codes "1"
    else if starts_with (codes "H") pkt
    then okay
    else []

module _ {W : Type 0} (bus : Bus W) (on_step : State W → ℕ → ℕ → State W) where
  unfoldable pub fire : Session W → Session W
  fire g =
      let (s, ts) = fire_timers g.state g.timers g.stats.total_tstates in
      record g { state = s; timers = ts }

  -- An instruction between two looks at the timers, with what `Emulate8085Op` returns.
  unfoldable pub step_once : Session W → Session W × ℕ
  step_once g =
      let f = fire g in
      let done = emulate_op bus (on_step f.state f.gdb_step f.stats.total_tstates) f.stats in
      (
        fire (record f { state = done.state; stats = done.stats; gdb_step = u64 (f.gdb_step + 1) }),
        done.halted,
      )

  -- `s` and `c` with an address.
  unfoldable pub jump_to : Session W → List ℕ → Session W
  jump_to g [] = g
  jump_to g (c ∷ cs) = record g { state = record (g.state) { pc = u16 (parse_hex 0 (c ∷ cs)).0 } }

  -- The loop of `c`, with the rounds left and the poll counter.
  unfoldable pub resume : (ℕ → Bool) → ℕ → Session W → ℕ → Session W × Answer
  resume ctrl_c zero g polls = (g, still_running)
  resume ctrl_c (suc left) g polls =
      let (next, halted) = step_once g in
      elim (next.breakpoints next.state.pc || halted != 0 && is_empty next.timers) [
        | true ↦ (next, reply (codes "S05"))
        | false ↦ elim (leb 1024 (polls + 1) && ctrl_c next.gdb_step) [
          | true ↦ (next, reply (codes "S02"))
          | false ↦ resume ctrl_c left next (if leb 1024 (polls + 1) then 0 else polls + 1)
        ]
      ]

  -- `c`: first past a breakpoint at PC.
  unfoldable pub continue_from : (ℕ → Bool) → ℕ → Session W → Session W × Answer
  continue_from ctrl_c left g =
      resume ctrl_c left (if g.breakpoints g.state.pc then (step_once g).0 else g) 0

  -- `Z0,` and `z0,`
  unfoldable pub set_breakpoint : Session W → Bool → List ℕ → Session W
  set_breakpoint g on arg =
      let addr = u16 (parse_hex 0 arg).0 in
      record g { breakpoints = λ x. if x == addr then on else g.breakpoints x }

  -- The body of the `while` loop for a packet that is not empty.
  unfoldable pub handle : Bool → (ℕ → Bool) → ℕ → Session W → List ℕ → Session W × Answer
  handle z80 ctrl_c left g [] = (g, killed)
  handle z80 ctrl_c left g (c ∷ arg) =
      if c == 3 || c == b'?'
      then (g, reply (codes "S05"))
      else if c == b'g'
      then (g, reply (read_all z80 g.state (reg_count z80) 0))
      else if c == b'G'
      then (record g { state = write_all z80 g.state (reg_count z80) 0 arg }, reply okay)
      else if c == b'p'
      then (g, reply (read_one z80 g.state arg))
      else if c == b'P'
      then (let (s, text) = write_one z80 g.state arg in (record g { state = s }, reply text))
      else if c == b'm'
      then (g, reply (read_memory g.state.memory arg))
      else if c == b'M'
      then (let (memory, text) = write_memory g.state.memory arg in
          (record g { state = record (g.state) { memory = memory } }, reply text))
      else if c == b's'
      then ((step_once (jump_to g arg)).0, reply (codes "S05"))
      else if c == b'c'
      then continue_from ctrl_c left (jump_to g arg)
      else if c == b'Z' && starts_with (codes "0,") arg
      then (set_breakpoint g true (drop 2 arg), reply okay)
      else if c == b'z' && starts_with (codes "0,") arg
      then (set_breakpoint g false (drop 2 arg), reply okay)
      else if c == b'k'
      then (g, killed)
      else if c == b'D'
      then (g, detached)
      else (g, reply (query z80 (c ∷ arg)))

  -- The `while` loop, with the packets left: the packets that the peer sends give the texts that are
  -- sent, each an acknowledgement and a reply, until the session ends. `send_packet` reads a
  -- character, the peer's acknowledgement, and takes any.
  unfoldable pub serve : Bool → (ℕ → Bool) → ℕ → ℕ → Session W → List ℕ → Session W × List ℕ
  serve z80 ctrl_c rounds zero g incoming = (g, [])
  serve z80 ctrl_c rounds (suc left) g incoming =
      let (pkt, rest, ack) = recv_packet incoming in
      elim pkt [
        | [] ↦ (g, ack)
        | c ∷ arg ↦
            let (next, answer) = handle z80 ctrl_c rounds g (c ∷ arg) in
            elim answer [
              | reply text ↦
                  let (end, sent) = serve z80 ctrl_c rounds left next (drop 1 rest) in
                  (end, ack ++ (packet text ++ sent))
              | killed ↦ (next, ack)
              | detached ↦ (next, ack ++ packet okay)
              | still_running ↦ (next, ack)
            ]
      ]
