-- ===== src/Net/Parser/Laws.antt =====
-- src/logic_net.cpp: the indices of a netlist that is parsed.
use tool_i8085_trace.Prelude.{
  length, ℕ, zero, suc, ◌+◌, ◌≤◌, ◌<◌, ◌≡◌, refl, Bool, true, false, Option, none, some, List, [],
  ◌∷◌, ◌++◌, arith, if◌then◌else◌, codes, same_text, starts_with,
}
use Prim.Native.Nat.{ℕ}
use mathlib.Core.Path.{subst}
use tool_i8085_trace.Net.Gates.{lvl_x, GateType, Gate}
use tool_i8085_trace.Net.{Pull, pull_up, pull_down}
use tool_i8085_trace.Net.Parser.{
  NamedNode, Wire, Netlist, Parsed, done, failed, pull_direction, unknown_gate, unknown_directive,
  index_from, node_index, set_pull, gate_type, gate_nodes, add_pull, add_wire, add_gate, add_line,
  words, parse_lines, lines, empty, parse,
}

abbrev pub AllBelow : ℕ → List ℕ → Type 0
AllBelow n [] = Unit {0}
AllBelow n (i ∷ is) = (i < n) × AllBelow n is

abbrev pub GatesBelow : ℕ → List Gate → Type 0
GatesBelow n [] = Unit {0}
GatesBelow n (g ∷ gs) = AllBelow n g.in_nodes × (g.out_node < n) × GatesBelow n gs

abbrev pub WiresBelow : ℕ → List Wire → Type 0
WiresBelow n [] = Unit {0}
WiresBelow n (w ∷ ws) = (w.node < n) × WiresBelow n ws

-- Every index of a netlist is that of a node.
abbrev pub InRange : Netlist → Type 0
InRange net = GatesBelow (length net.nodes) net.gates × WiresBelow (length net.nodes) net.endpoints

more-AllBelow : (n m : ℕ) (is : List ℕ) → n ≤ m → AllBelow n is → AllBelow m is
more-AllBelow n m [] h b = b
more-AllBelow n m (i ∷ is) h (lt, b) = (omega arith, more-AllBelow n m is h b)

more-GatesBelow : (n m : ℕ) (gs : List Gate) → n ≤ m → GatesBelow n gs → GatesBelow m gs
more-GatesBelow n m [] h b = b
more-GatesBelow n m (g ∷ gs) h (ins, out, b) =
    (more-AllBelow n m g.in_nodes h ins, omega arith, more-GatesBelow n m gs h b)

more-WiresBelow : (n m : ℕ) (ws : List Wire) → n ≤ m → WiresBelow n ws → WiresBelow m ws
more-WiresBelow n m [] h b = b
more-WiresBelow n m (w ∷ ws) h (lt, b) = (omega arith, more-WiresBelow n m ws h b)

snoc-GatesBelow :
    (n : ℕ) (gs : List Gate) (g : Gate)
    → GatesBelow n gs
    → AllBelow n g.in_nodes
    → g.out_node < n
    → GatesBelow n (gs ++ g ∷ [])
snoc-GatesBelow n [] g b ins out = (ins, out, tt)
snoc-GatesBelow n (x ∷ xs) g (i, o, b) ins out = (i, o, snoc-GatesBelow n xs g b ins out)

snoc-WiresBelow :
    (n : ℕ) (ws : List Wire) (w : Wire) → WiresBelow n ws → w.node < n → WiresBelow n (ws ++ w ∷ [])
snoc-WiresBelow n [] w b lt = (lt, tt)
snoc-WiresBelow n (x ∷ xs) w (i, b) lt = (i, snoc-WiresBelow n xs w b lt)

index_from_bound :
    (idx : ℕ) (ns : List NamedNode) (name : List ℕ)
    → ((index_from idx ns name).1 < idx + length (index_from idx ns name).0)
      × (length ns ≤ length (index_from idx ns name).0)
unfolding index_from
index_from_bound idx [] name = (omega arith, omega arith)
index_from_bound idx (n ∷ ns) name = ground (arith, index_from_bound (idx + 1) ns name)

length-set_pull :
    (ns : List NamedNode) (i : ℕ) (pull : Pull) → length (set_pull ns i pull) ≡ length ns
unfolding set_pull
length-set_pull [] i pull = refl
length-set_pull (n ∷ ns) zero pull = refl
length-set_pull (n ∷ ns) (suc i) pull = omega (arith, length-set_pull ns i pull)

gate_nodes-AllBelow :
    (ws : List (List ℕ)) (w : List ℕ) (ns : List NamedNode)
    → let (ms, ins, out) = gate_nodes ns (w ∷ ws) in
      (length ns ≤ length ms) × AllBelow (length ms) ins × (out < length ms)
unfolding gate_nodes
gate_nodes-AllBelow [] w ns = let b = index_from_bound 0 ns w in (b.1, tt, omega (arith, b.0))
gate_nodes-AllBelow (v ∷ ws) w ns =
    let b = index_from_bound 0 ns w in
    let next = (node_index ns w).0 in
    let ih = gate_nodes-AllBelow ws v next in
    (omega (arith, b.1, ih.0), (omega (arith, b.0, ih.0), ih.1), ih.2)

-- A line that is accepted leaves every index in range.
abbrev Sound : Parsed → Type 0
Sound (done net) = InRange net
Sound (failed at problem) = Unit {0}

add_pull-Sound :
    (net : Netlist) (at : ℕ) (ws : List (List ℕ)) → InRange net → Sound (add_pull net at ws)
unfolding add_pull
add_pull-Sound net at [] r = tt
add_pull-Sound net at (name ∷ []) r = tt
add_pull-Sound net at (name ∷ direction ∷ x ∷ xs) r = tt
add_pull-Sound net at (name ∷ direction ∷ []) r =
    pulled (same_text direction (codes "up")) (same_text direction (codes "down"))
  where
    nodes : List NamedNode
    nodes = (node_index net.nodes name).0

    idx : ℕ
    idx = (node_index net.nodes name).1

    kept : (pull : Pull) → InRange (record net { nodes = set_pull nodes idx pull })
    kept pull =
        let more : length net.nodes ≤ length (set_pull nodes idx pull) =
          omega (arith, length-set_pull nodes idx pull, (index_from_bound 0 net.nodes name).1) in
        (
          more-GatesBelow (length net.nodes) (length (set_pull nodes idx pull)) net.gates more r.0,
          more-WiresBelow (length net.nodes) (length (set_pull nodes idx pull)) net.endpoints more
              r.1,
        )

    pulled :
        (up down : Bool)
        → Sound (
            if up
            then done (record net { nodes = set_pull nodes idx pull_up })
            else if down
            then done (record net { nodes = set_pull nodes idx pull_down })
            else failed at pull_direction)
    pulled true down = kept pull_up
    pulled false true = kept pull_down
    pulled false false = tt

add_wire-Sound :
    (net : Netlist) (at : ℕ) (ws : List (List ℕ)) → InRange net → Sound (add_wire net at ws)
unfolding add_wire
add_wire-Sound net at [] r = tt
add_wire-Sound net at (name ∷ []) r = tt
add_wire-Sound net at (name ∷ pin ∷ x ∷ xs) r = tt
add_wire-Sound net at (name ∷ pin ∷ []) r =
    let b = index_from_bound 0 net.nodes name in
    let nodes = (node_index net.nodes name).0 in
    (
      more-GatesBelow (length net.nodes) (length nodes) net.gates b.1 r.0,
      snoc-WiresBelow (length nodes) net.endpoints
          (record { node = (node_index net.nodes name).1; pin = pin })
          (more-WiresBelow (length net.nodes) (length nodes) net.endpoints b.1 r.1)
          (omega (arith, b.0)),
    )

add_gate-Sound :
    (net : Netlist) (at : ℕ) (ws : List (List ℕ)) → InRange net → Sound (add_gate net at ws)
unfolding add_gate
add_gate-Sound net at [] r = tt
add_gate-Sound net at (a ∷ []) r = tt
add_gate-Sound net at (a ∷ b ∷ []) r = tt
add_gate-Sound net at (a ∷ b ∷ c ∷ []) r = tt
add_gate-Sound net at (type ∷ name ∷ first ∷ second ∷ more) r = typed (gate_type type)
  where
    nodes : List NamedNode
    nodes = (gate_nodes net.nodes (first ∷ second ∷ more)).0

    ins : List ℕ
    ins = (gate_nodes net.nodes (first ∷ second ∷ more)).1

    out : ℕ
    out = (gate_nodes net.nodes (first ∷ second ∷ more)).2

    typed :
        (t : Option GateType)
        → Sound (elim t [
          | none ↦ failed at unknown_gate
          | some t ↦ done (record net {
            nodes = nodes;
            gates =
                net.gates ++ record { type = t; in_nodes = ins; out_node = out; out = lvl_x } ∷ [];
          })
        ])
    typed none = tt
    typed (some t) =
        let b = gate_nodes-AllBelow (second ∷ more) first net.nodes in
        (
          snoc-GatesBelow (length nodes) net.gates
              (record { type = t; in_nodes = ins; out_node = out; out = lvl_x })
              (more-GatesBelow (length net.nodes) (length nodes) net.gates b.0 r.0) b.1 b.2,
          more-WiresBelow (length net.nodes) (length nodes) net.endpoints b.0 r.1,
        )

add_line-Sound :
    (net : Netlist) (at : ℕ) (ws : List (List ℕ)) → InRange net → Sound (add_line net at ws)
unfolding add_line
add_line-Sound net at [] r = r
add_line-Sound net at (directive ∷ rest) r =
    directed (starts_with (codes "#") directive) (same_text directive (codes "pull"))
      (same_text directive (codes "wire")) (same_text directive (codes "gate"))
  where
    directed :
        (comment pull wire gate : Bool)
        → Sound (
            if comment
            then done net
            else if pull
            then add_pull net at rest
            else if wire
            then add_wire net at rest
            else if gate
            then add_gate net at rest
            else failed at unknown_directive)
    directed true pull wire gate = r
    directed false true wire gate = add_pull-Sound net at rest r
    directed false false true gate = add_wire-Sound net at rest r
    directed false false false true = add_gate-Sound net at rest r
    directed false false false false = tt

parse_lines-Sound :
    (ls : List (List ℕ)) (net : Netlist) (at : ℕ) → InRange net → Sound (parse_lines net at ls)
unfolding parse_lines
parse_lines-Sound [] net at r = r
parse_lines-Sound (l ∷ ls) net at r =
    added (add_line net at (words l)) (add_line-Sound net at (words l) r)
      (λ next s. parse_lines-Sound ls next (at + 1) s)
  where
    added :
        (result : Parsed)
        → Sound result
        → ((next : Netlist) → InRange next → Sound (parse_lines next (at + 1) ls))
        → Sound (elim result [
          | done next ↦ parse_lines next (at + 1) ls
          | failed where_it_is problem ↦ failed where_it_is problem
        ])
    added (done next) s more = more next s
    added (failed where_it_is problem) s more = tt

-- A netlist that is accepted has every index in range: whatever the text, each input and output of a
-- gate and each wire is the index of a node, so that no step of the net reads past its vectors.
pub parse-InRange : (text : List ℕ) (net : Netlist) → parse text ≡ done net → InRange net
unfolding parse
parse-InRange text net e = subst Sound e (parse_lines-Sound (lines text) empty 1 (tt, tt))
