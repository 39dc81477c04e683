-- ===== src/Tests/NetlistTests.antt =====
-- src/logic_net.cpp and src/io_runtime.cpp: the theorems at a concrete netlist.
use tool_i8085_trace.Net.{Pull}
use tool_i8085_trace.Prelude.{
  ℕ, ◌≡◌, refl, true, false, none, some, List, [], ◌∷◌, map, strtoul, numeral, codes, same_text,
  starts_with, after_char, before_char, skip_prefix, take_sign, skip_spaces, is_space, digit_of,
  digit_value, digits_of,
}
use Prim.Native.Nat.{ℕ}
use tool_i8085_trace.Tests.BoardTests.{system}
use tool_i8085_trace.Net.{pull_none, pull_up, Node, Net, refresh}
use tool_i8085_trace.Net.Gates.{lvl_x, g_inv}
use tool_i8085_trace.Net.Parser.{
  Netlist, done, parse, parse_lines, lines, add_line, words, add_pull, add_wire, add_gate,
  gate_type, index_from, gate_nodes, set_pull, bind, bind_endpoints, bind_nodes, sources_of,
}
use tool_i8085_trace.Net.Parser.Laws.{InRange, parse-InRange}
use tool_i8085_trace.Runtime.Wiring.{PinHandle, snapshot, find_pin, wires}
use tool_i8085_trace.Prelude.{auto_base}
use tool_i8085_trace.Runtime.Wiring.Resolve.{
  resolve, resolve_cpu_pin, resolve_chip_pin, search_pin, without_digits,
}
use tool_i8085_trace.Runtime.Wiring.Netlist.{resolver, load_netlist, load_netlist-refresh}

abbrev text : List ℕ
text =
    codes
      "# timer 2 wakes the CPU\n pull q up\nwire q pit8254@0x10.OUT2\ngate inv u1 q n\nwire n cpu.RST6.5"

abbrev netlist : Netlist
netlist = record {
  nodes =
      record { name = codes "q"; pull = pull_up }
      ∷ record { name = codes "n"; pull = pull_none }
      ∷ [];
  endpoints =
      record { node = 0; pin = codes "pit8254@0x10.OUT2" }
      ∷ record { node = 1; pin = codes "cpu.RST6.5" }
      ∷ [];
  gates = record { type = g_inv; in_nodes = 0 ∷ []; out_node = 1; out = lvl_x } ∷ [];
}

text_parses : parse text ≡ done netlist
unfolding parse parse_lines lines add_line words is_space starts_with same_text add_pull add_wire
    add_gate gate_type index_from gate_nodes set_pull
text_parses = refl

parse-InRange_example : InRange netlist
parse-InRange_example = parse-InRange text netlist text_parses

abbrev table : List PinHandle
table =
    record { plugin = some 2; field = codes "OUT"; bit = 2; sub = codes "OUT2" }
    ∷ record { plugin = none; field = codes "RST6.5"; bit = 0; sub = codes "RST6.5" }
    ∷ []

abbrev node : Pull → List ℕ → Node
node pull sources = record {
  pull = pull;
  level = lvl_x;
  warned_conflict = false;
  warned_float = false;
  gate_sources = sources;
}

abbrev net : Net
net = record {
  nodes = node pull_up [] ∷ node pull_none (0 ∷ []) ∷ [];
  endpoints =
      record { node = 0; handle = some 0; is_output = true }
      ∷ record { node = 1; handle = some 1; is_output = false }
      ∷ [];
  gates = record { type = g_inv; in_nodes = 0 ∷ []; out_node = 1; out = lvl_x } ∷ [];
  warned_oscillation = false;
}

text_loads : load_netlist system.world.plugins [] text ≡ some (net, table)
unfolding load_netlist bind bind_endpoints bind_nodes sources_of resolver resolve resolve_cpu_pin
    resolve_chip_pin search_pin starts_with after_char before_char auto_base without_digits strtoul
    numeral skip_prefix take_sign skip_spaces is_space digit_of digit_value digits_of same_text
    snapshot find_pin parse parse_lines lines add_line words add_pull add_wire add_gate gate_type
    index_from gate_nodes set_pull
text_loads = refl

load_netlist-refresh_example : map (refresh (wires table) system) net.endpoints ≡ net.endpoints
load_netlist-refresh_example =
    load_netlist-refresh system.world.plugins system refl [] table text net text_loads
