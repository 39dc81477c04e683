-- ===== src/Tests/GdbTests.antt =====
-- src/gdb_stub.cpp: the theorems at a concrete session.
use tool_i8085_trace.Prelude.{
  none, some, ℕ, ◌≡◌, refl, false, [], ◌∷◌, ◌++◌, arith, ◌==◌, word, codes,
}
use Prim.Native.Nat.{ℕ}
use tool_i8085_trace.Tests.{cpu, rom, free_bus, no_stats}
use tool_i8085_trace.Tests.MainTests.{idle, options, start}
use tool_i8085_trace.Main.{raise_due, hit, is_stop_address, observe, stopped, once}
use tool_i8085_trace.Gdb.{hex_byte, hex_char, packet, recv_packet}
use tool_i8085_trace.Gdb.Codec.{recv_packet-packet}
use tool_i8085_trace.Gdb.Registers.{reg_count, reg_get, reg_set}
use tool_i8085_trace.Gdb.Registers.Laws.{reg_get-reg_set}
use tool_i8085_trace.Gdb.Packets.{read_all, write_all, read_memory, write_memory}
use tool_i8085_trace.Gdb.Packets.Laws.{IsValid, write_all-read_all}
use tool_i8085_trace.Gdb.Packets.Memory.{m_argument, m_argument_with, read_memory-write_memory}
use tool_i8085_trace.Gdb.Server.{Session, step_once}
use tool_i8085_trace.Gdb.Server.Laws.{step_once-once}
use tool_i8085_trace.Gdb.Server.Features.{fetch, fetch-chunk_of}

recv_packet-packet_example :
    recv_packet (b'+' ∷ (packet (codes "g") ++ codes "$?")) ≡ (codes "g", codes "$?", b'+' ∷ [])
recv_packet-packet_example =
    recv_packet-packet (b'+' ∷ []) (codes "g") (codes "$?") (omega arith, omega arith, tt)
      (omega arith, tt)

reg_get-reg_set_example : reg_get false (reg_set false cpu 10 0x12ff) 10 ≡ 0x12d7
unfolding reg_count
reg_get-reg_set_example = reg_get-reg_set cpu 0x12ff (omega arith) false 10 (omega arith)

cpu-IsValid : IsValid cpu
unfolding word
cpu-IsValid = record {
  a = omega arith;
  b = omega arith;
  c = omega arith;
  d = omega arith;
  e = omega arith;
  h = omega arith;
  l = omega arith;
  sp = omega arith;
  pc = omega arith;
  m = omega arith;
}

write_all-read_all_example : write_all false cpu 15 0 (read_all false cpu 15 0) ≡ cpu
write_all-read_all_example = write_all-read_all cpu cpu-IsValid

read_memory-write_memory_example :
    let (written, answer) = write_memory rom (m_argument_with 0xffff (1 ∷ 0xfe ∷ [])) in
    (answer ≡ codes "OK") × (read_memory written (m_argument 0xffff 2) ≡ codes "01fe")
unfolding hex_byte hex_char
read_memory-write_memory_example =
    read_memory-write_memory rom 0xffff (1 ∷ 0xfe ∷ []) (omega arith) (omega arith)
      (omega arith, (omega arith, tt))

abbrev session : Session ℕ
session = record {
  state = cpu;
  stats = no_stats;
  timers = [];
  breakpoints = λ x. x == 0x0101;
  gdb_step = 0;
}

goes_on : stopped options (observe options (record start { timers = [] })) ≡ none
unfolding stopped observe raise_due hit is_stop_address
goes_on = refl

step_once-once_example :
    let h = (step_once free_bus idle session).0 in
    let q = (once free_bus idle options (record start { timers = [] })).0 in
    (q.state ≡ h.state) × (q.stats ≡ h.stats) × (q.timers ≡ h.timers) × (q.step ≡ h.gdb_step)
step_once-once_example =
    step_once-once free_bus idle options session (record start { timers = [] }) refl refl refl refl
      tt (omega arith, (omega arith, refl)) goes_on

fetch-chunk_of_example : fetch 9 (codes "<target>") 0 3 ≡ some (codes "<target>")
fetch-chunk_of_example =
    fetch-chunk_of 9 (codes "<target>") 0 3 (omega arith) (omega arith) (omega arith)
