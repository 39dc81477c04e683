-- ===== src/Net/Parser.antt =====
-- src/logic_net.h, src/logic_net.cpp: the text of a netlist, `Net::parse`, and `Net::bind`. The nodes
-- keep their names until they are bound. Trimming a line leaves its words as they are, so a comment is
-- a line whose first word begins with `#`. An error is its line and kind; a net that fails is not used.
pub mod Laws
use tool_i8085_trace.Prelude.{
  ℕ, zero, suc, ◌+◌, Bool, false, not, Option, none, some, List, [], ◌∷◌, ◌++◌, map, ◌==◌,
  if◌then◌else◌, codes, same_text, starts_with, is_space,
}
use Prim.Native.Nat.{ℕ}
use tool_i8085_trace.Net.{Pull, pull_none, pull_up, pull_down, Node, Endpoint, Net}
use tool_i8085_trace.Net.Gates.{lvl_x, GateType, g_inv, g_buf, g_and, g_or, g_nand, g_nor, Gate}

pub record NamedNode : Type 0 where
  pub name : List ℕ
  pub pull : Pull

pub record Wire : Type 0 where
  pub node : ℕ
  pub pin : List ℕ

-- The vectors that `parse` fills.
pub record Netlist : Type 0 where
  pub nodes : List NamedNode
  pub endpoints : List Wire
  pub gates : List Gate

pub data Problem : Type 0 where
  pull_words wire_words gate_words pull_direction unknown_gate unknown_directive : Problem

pub data Parsed : Type 0 where
  done : Netlist → Parsed
  failed : ℕ → Problem → Parsed

-- `nodeIndex`: the index among nodes that begin at `idx`, and the nodes with a new one at the end.
unfoldable pub index_from : ℕ → List NamedNode → List ℕ → List NamedNode × ℕ
index_from idx [] name = (record { name = name; pull = pull_none } ∷ [], idx)
index_from idx (n ∷ ns) name =
    let (rest, found) = index_from (idx + 1) ns name in
    if same_text n.name name then (n ∷ ns, idx) else (n ∷ rest, found)

abbrev pub node_index : List NamedNode → List ℕ → List NamedNode × ℕ
node_index nodes name = index_from 0 nodes name

-- The words of a line.
abbrev pub begins_word : List ℕ → Bool
begins_word [] = false
begins_word (c ∷ cs) = not (is_space c)

abbrev pub in_front : ℕ → List (List ℕ) → List (List ℕ)
in_front c [] = (c ∷ []) ∷ []
in_front c (w ∷ ws) = (c ∷ w) ∷ ws

unfoldable pub words : List ℕ → List (List ℕ)
words [] = []
words (c ∷ cs) =
    let rest = words cs in
    if is_space c then rest else if begins_word cs then in_front c rest else (c ∷ []) ∷ rest

-- `getline`
unfoldable pub lines : List ℕ → List (List ℕ)
lines [] = [] ∷ []
lines (c ∷ cs) = let rest = lines cs in if c == 10 then [] ∷ rest else in_front c rest

-- `nodes_[idx].pull = pull`
unfoldable pub set_pull : List NamedNode → ℕ → Pull → List NamedNode
set_pull [] i pull = []
set_pull (n ∷ ns) zero pull = record n { pull = pull } ∷ ns
set_pull (n ∷ ns) (suc i) pull = n ∷ set_pull ns i pull

unfoldable pub gate_type : List ℕ → Option GateType
gate_type text =
    if same_text text (codes "inv")
    then some g_inv
    else if same_text text (codes "buf")
    then some g_buf
    else if same_text text (codes "and")
    then some g_and
    else if same_text text (codes "or")
    then some g_or
    else if same_text text (codes "nand")
    then some g_nand
    else if same_text text (codes "nor")
    then some g_nor
    else none

-- The input nodes of a gate, and behind them its output, the last word.
unfoldable pub gate_nodes : List NamedNode → List (List ℕ) → List NamedNode × List ℕ × ℕ
gate_nodes nodes [] = (nodes, [], 0)
gate_nodes nodes (w ∷ []) = let (ns, out) = node_index nodes w in (ns, [], out)
gate_nodes nodes (w ∷ v ∷ ws) =
    let (ns, i) = node_index nodes w in
    let (ms, ins, out) = gate_nodes ns (v ∷ ws) in (ms, i ∷ ins, out)

unfoldable pub add_pull : Netlist → ℕ → List (List ℕ) → Parsed
add_pull net at (name ∷ direction ∷ []) =
    let (nodes, idx) = node_index net.nodes name in
    if same_text direction (codes "up")
    then done (record net { nodes = set_pull nodes idx pull_up })
    else if same_text direction (codes "down")
    then done (record net { nodes = set_pull nodes idx pull_down })
    else failed at pull_direction
add_pull net at other = failed at pull_words

unfoldable pub add_wire : Netlist → ℕ → List (List ℕ) → Parsed
add_wire net at (name ∷ pin ∷ []) =
    let (nodes, idx) = node_index net.nodes name in
    done (record net {
      nodes = nodes;
      endpoints = net.endpoints ++ record { node = idx; pin = pin } ∷ [];
    })
add_wire net at other = failed at wire_words

-- The words behind `gate`: the type, a name that is not kept, inputs and the output.
unfoldable pub add_gate : Netlist → ℕ → List (List ℕ) → Parsed
add_gate net at (type ∷ name ∷ first ∷ second ∷ more) = elim (gate_type type) [
  | none ↦ failed at unknown_gate
  | some t ↦
      let (nodes, ins, out) = gate_nodes net.nodes (first ∷ second ∷ more) in
      done (record net {
        nodes = nodes;
        gates = net.gates ++ record { type = t; in_nodes = ins; out_node = out; out = lvl_x } ∷ [];
      })
]
add_gate net at other = failed at gate_words

-- The body of the loop, for the words of line `at`.
unfoldable pub add_line : Netlist → ℕ → List (List ℕ) → Parsed
add_line net at [] = done net
add_line net at (directive ∷ rest) =
    if starts_with (codes "#") directive
    then done net
    else if same_text directive (codes "pull")
    then add_pull net at rest
    else if same_text directive (codes "wire")
    then add_wire net at rest
    else if same_text directive (codes "gate")
    then add_gate net at rest
    else failed at unknown_directive

unfoldable pub parse_lines : Netlist → ℕ → List (List ℕ) → Parsed
parse_lines net at [] = done net
parse_lines net at (line ∷ rest) = elim (add_line net at (words line)) [
  | done next ↦ parse_lines next (at + 1) rest
  | failed where_it_is problem ↦ failed where_it_is problem
]

abbrev pub empty : Netlist
empty = record { nodes = []; endpoints = []; gates = [] }

-- `Net::parse`
unfoldable pub parse : List ℕ → Parsed
parse text = parse_lines empty 1 (lines text)

-- The gates that drive a node, by their indices from `idx` on.
unfoldable pub sources_of : ℕ → ℕ → List Gate → List ℕ
sources_of node idx [] = []
sources_of node idx (g ∷ gs) =
    let rest = sources_of node (idx + 1) gs in if g.out_node == node then idx ∷ rest else rest

unfoldable pub bind_nodes : ℕ → List Gate → List NamedNode → List Node
bind_nodes idx gates [] = []
bind_nodes idx gates (n ∷ ns) =
    record {
      pull = n.pull;
      level = lvl_x;
      warned_conflict = false;
      warned_float = false;
      gate_sources = sources_of idx 0 gates;
    }
    ∷ bind_nodes (idx + 1) gates ns

-- The endpoints, each resolved over what the callback keeps; `none` for an unknown pin.
unfoldable pub bind_endpoints :
    {T : Type 0} → (T → List ℕ → Option (ℕ × Bool × T)) → T → List Wire → Option (List Endpoint × T)
bind_endpoints resolve table [] = some ([], table)
bind_endpoints resolve table (w ∷ ws) = elim (resolve table w.pin) [
  | none ↦ none
  | some (handle, is_output, next) ↦ elim (bind_endpoints resolve next ws) [
    | none ↦ none
    | some (eps, last) ↦
        some (record { node = w.node; handle = some handle; is_output = is_output } ∷ eps, last)
  ]
]

-- `Net::bind` of a net that was not bound before.
unfoldable pub bind :
    {T : Type 0} → (T → List ℕ → Option (ℕ × Bool × T)) → T → Netlist → Option (Net × T)
bind resolve table net = elim (bind_endpoints resolve table net.endpoints) [
  | none ↦ none
  | some (eps, last) ↦ some (
    record {
      nodes = bind_nodes 0 net.gates net.nodes;
      endpoints = eps;
      gates = map (λ (g : Gate). record g { out = lvl_x }) net.gates;
      warned_oscillation = false;
    },
    last,
  )
]
