-- ===== src/Net/Order.antt =====
-- src/logic_net.cpp: a wire does not know in which order its drivers are named.
use tool_i8085_trace.Prelude.{
  ℕ, zero, suc, ◌≡◌, refl, sym, ◌∙◌, arith, Bool, true, false, ap, ◌||◌, ◌==◌, List, [], ◌∷◌, map,
  if◌then◌else◌,
}
use Prim.Native.Nat.{ℕ}
use mathlib.Core.Bool.{Bool-set}
use mathlib.Core.List.{Perm, foldr}
use mathlib.Core.List.Perm
use tool_i8085_trace.Net.Gates.{Level, Gate}
use tool_i8085_trace.Net.{
  Drive, drv_0, drv_1, Drivers, Endpoint, Host, Net, Node, resolve_nodes, warn_node, warn_nodes,
  pins_drive, pass, settle, step, pin_driver, refresh, outs_of,
}

-- One driver of a wire.
abbrev drives : ℕ → Drive → ℕ × Drive → Bool → Bool
drives node drv_0 (n, drv_0) rest = n == node || rest
drives node drv_1 (n, drv_1) rest = n == node || rest
drives node drv d rest = rest

pins_drive-foldr :
    (node : ℕ) (drv : Drive) (ds : Drivers)
    → pins_drive node drv ds ≡ foldr (drives node drv) false ds
pins_drive-foldr node drv [] = ground arith
pins_drive-foldr node drv ((n, d) ∷ ds) = ground (arith, pins_drive-foldr node drv ds)

drives_comm :
    (node : ℕ) (drv : Drive) (a b : ℕ × Drive) (rest : Bool)
    → drives node drv a (drives node drv b rest) ≡ drives node drv b (drives node drv a rest)
drives_comm node drv (n, d) (m, e) rest = ground arith

-- The same drivers for every wire.
abbrev SameDrivers : Drivers → Drivers → Type 0
SameDrivers ds es = (node : ℕ) (drv : Drive) → pins_drive node drv ds ≡ pins_drive node drv es

perm-SameDrivers : (ds es : Drivers) → Perm ds es → SameDrivers ds es
perm-SameDrivers ds es p node drv =
    pins_drive-foldr node drv ds
    ∙ Perm.foldr-eq Bool-set (drives node drv) (drives_comm node drv) p false
    ∙ sym (pins_drive-foldr node drv es)

module _ (ds es : Drivers) (same : SameDrivers ds es) where
  resolve_nodes_same :
      (outs : List Level) (idx : ℕ) (ns : List Node)
      → resolve_nodes ds outs idx ns ≡ resolve_nodes es outs idx ns
  resolve_nodes_same outs idx [] = refl
  resolve_nodes_same outs idx (n ∷ ns) =
      rw (same idx drv_0, same idx drv_1, resolve_nodes_same outs (suc idx) ns)

  module _ {C : Type 0} (host : Host C) where
    warn_nodes_same :
        (ctx : C) (outs : List Level) (idx : ℕ) (ns : List Node)
        → warn_nodes host ctx ds outs idx ns ≡ warn_nodes host ctx es outs idx ns
    warn_nodes_same ctx outs idx [] = refl
    warn_nodes_same ctx outs idx (n ∷ ns) =
        rw (same idx drv_0, same idx drv_1)
          (warn_nodes_same (warn_node host ctx es outs idx n) outs (suc idx) ns)

    settle_same :
        (left : ℕ) (ns : List Node) (gs : List Gate) (ctx : C)
        → settle host ds left ns gs ctx ≡ settle host es left ns gs ctx
    unfolding settle
    settle_same zero ns gs ctx = refl
    settle_same (suc left) ns gs ctx =
        let (ns', gs', ctx', changed) = pass host es ns gs ctx in
        rw (
          resolve_nodes_same (outs_of gs) 0 ns,
          warn_nodes_same ctx (outs_of gs) 0 ns,
          settle_same left ns' gs' ctx',
        )

-- The order in which the netlist names the pins of its wires does not matter to the wires: with the
-- endpoints in any other order, a step leaves every node with the same level, every gate with the
-- same output and the same warnings given.
pub step-perm :
    {C : Type 0} (host : Host C) (ctx : C) (net : Net) (eps : List Endpoint)
    → Perm net.endpoints eps
    → let t = (step host net ctx).0 in
      let u = (step host (record net { endpoints = eps }) ctx).0 in
      (t.nodes ≡ u.nodes) × (t.gates ≡ u.gates) × (t.warned_oscillation ≡ u.warned_oscillation)
unfolding step
step-perm host ctx net eps p =
    let ds : Drivers =
      map (λ ep. (ep.node, pin_driver host ctx ep)) (map (refresh host ctx) net.endpoints) in
    let es : Drivers = map (λ ep. (ep.node, pin_driver host ctx ep)) (map (refresh host ctx) eps) in
    let same : SameDrivers ds es =
      perm-SameDrivers ds es
        (Perm.map (λ ep. (ep.node, pin_driver host ctx ep)) (Perm.map (refresh host ctx) p)) in
    let e : settle host ds 16 net.nodes net.gates ctx ≡ settle host es 16 net.nodes net.gates ctx =
      settle_same ds es same host 16 net.nodes net.gates ctx in
    (ap (λ t. t.0) e, ap (λ t. t.1) e, ap (λ t. if t.3 then true else net.warned_oscillation) e)
