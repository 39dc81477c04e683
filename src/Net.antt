-- ===== src/Net.antt =====
-- src/logic_net.h, src/logic_net.cpp: the wires between the chips. `step` resolves every node over
-- its drivers and evaluates the gates until nothing changes, in at most sixteen passes. What the
-- class keeps by node, in vectors that `bind` gives one size, is one list of nodes here, and what
-- it keeps by gate one list of gates, so the size checks at the head of `step` always pass. A node's
-- name, which the parser and the accessors read, is left out. `handle` is `none` for -1.
pub mod Gates
pub mod Parser
pub mod Laws
pub mod Hosts
pub mod Order
use tool_i8085_trace.Net.Gates.{
  Level, lvl_0, lvl_1, lvl_x, GateType, Gate, same_level, level_at, eval_gate,
}
use tool_i8085_trace.Prelude.{
  zero, suc, Bool, true, false, not, ◌&&◌, ◌||◌, Option, none, some, List, [], ◌∷◌, map, ◌==◌,
  if◌then◌else◌,
}
use tool_i8085_trace.Prelude.{ℕ}

pub data Drive : Type 0 where
  drv_0 drv_1 drv_z : Drive

pub data Pull : Type 0 where
  pull_none pull_up pull_down : Pull

pub data Warning : Type 0 where
  conflict floating oscillation : Warning

-- The host's callbacks, over its own state; `is_output` may be missing.
pub record Host (C : Type 0) : Type 0 where
  pub read_output : C → ℕ → Drive
  pub write_input : C → ℕ → Level → C
  pub warn : C → Warning → C
  pub is_output : Option (C → ℕ → Bool)

pub record Node : Type 0 where
  pub pull : Pull
  pub level : Level
  pub warned_conflict : Bool
  pub warned_float : Bool
  pub gate_sources : List ℕ

pub record Endpoint : Type 0 where
  pub node : ℕ
  pub handle : Option ℕ
  pub is_output : Bool

pub record Net : Type 0 where
  pub nodes : List Node
  pub endpoints : List Endpoint
  pub gates : List Gate
  pub warned_oscillation : Bool

-- An output pin with its driver, read once at the top of `step`; any other pin is `drv_z`.
abbrev pub pin_driver : {C : Type 0} → Host C → C → Endpoint → Drive
pin_driver host ctx ep = elim ep.handle [
  | none ↦ drv_z
  | some h ↦ if ep.is_output then host.read_output ctx h else drv_z
]

-- The direction of a bound pin, live if the host can tell it.
abbrev pub refresh : {C : Type 0} → Host C → C → Endpoint → Endpoint
refresh host ctx ep = elim host.is_output [
  | none ↦ ep
  | some f ↦ elim ep.handle [ none ↦ ep | some h ↦ record ep { is_output = f ctx h } ]
]

-- The pins that drive, each with its node.
abbrev pub Drivers : Type 0
Drivers = List (ℕ × Drive)

abbrev pub pins_drive : ℕ → Drive → Drivers → Bool
pins_drive node drv_0 ((n, drv_0) ∷ ds) = n == node || pins_drive node drv_0 ds
pins_drive node drv_1 ((n, drv_1) ∷ ds) = n == node || pins_drive node drv_1 ds
pins_drive node drv (d ∷ ds) = pins_drive node drv ds
pins_drive node drv [] = false

-- Some gate that drives the node has this output.
abbrev pub gates_drive : List Level → Level → List ℕ → Bool
gates_drive outs l [] = false
gates_drive outs l (g ∷ gs) = same_level (level_at outs g) l || gates_drive outs l gs

abbrev pub pulled : Pull → Level
pulled pull_up = lvl_1
pulled pull_down = lvl_0
pulled pull_none = lvl_x

-- The resolution rule: a conflict is X, a gate at X comes next, then the drivers, then the pull.
abbrev pub resolve : (has_0 has_1 gate_x : Bool) → Pull → Level
resolve true true gate_x pull = lvl_x
resolve true false true pull = lvl_x
resolve false has_1 true pull = lvl_x
resolve true false false pull = lvl_0
resolve false true false pull = lvl_1
resolve false false false pull = pulled pull

-- What drives a node: a pin or a gate at 0, one at 1, a gate at X.
abbrev pub has_level : Drivers → List Level → ℕ → Node → Drive → Level → Bool
has_level ds outs idx n drv l = pins_drive idx drv ds || gates_drive outs l n.gate_sources

abbrev pub resolved : Drivers → List Level → ℕ → Node → Level
resolved ds outs idx n =
    resolve (has_level ds outs idx n drv_0 lvl_0) (has_level ds outs idx n drv_1 lvl_1)
      (gates_drive outs lvl_x n.gate_sources) n.pull

-- The two branches that warn.
abbrev pub in_conflict : Drivers → List Level → ℕ → Node → Bool
in_conflict ds outs idx n =
    has_level ds outs idx n drv_0 lvl_0 && has_level ds outs idx n drv_1 lvl_1

abbrev pub is_open : Drivers → List Level → ℕ → Node → Bool
is_open ds outs idx n =
    not (has_level ds outs idx n drv_0 lvl_0 || has_level ds outs idx n drv_1 lvl_1)
    && not (gates_drive outs lvl_x n.gate_sources)
    && elim n.pull [ pull_none ↦ true | pull_up ↦ false | pull_down ↦ false ]

-- One node of part (a) of a pass.
abbrev pub resolve_node : Drivers → List Level → ℕ → Node → Node
resolve_node ds outs idx n = record n {
  level = resolved ds outs idx n;
  warned_conflict = if in_conflict ds outs idx n then true else n.warned_conflict;
  warned_float = if is_open ds outs idx n then true else n.warned_float;
}

module _ {C : Type 0} (host : Host C) where
  -- Each node warns once.
  abbrev pub warn_node : C → Drivers → List Level → ℕ → Node → C
  warn_node ctx ds outs idx n =
      if in_conflict ds outs idx n
      then (if n.warned_conflict then ctx else host.warn ctx conflict)
      else if is_open ds outs idx n
      then (if n.warned_float then ctx else host.warn ctx floating)
      else ctx

  abbrev pub warn_nodes : C → Drivers → List Level → ℕ → List Node → C
  warn_nodes ctx ds outs idx [] = ctx
  warn_nodes ctx ds outs idx (n ∷ ns) =
      warn_nodes (warn_node ctx ds outs idx n) ds outs (suc idx) ns

-- Part (a): no node's new level depends on another's.
abbrev pub resolve_nodes : Drivers → List Level → ℕ → List Node → List Node
resolve_nodes ds outs idx [] = []
resolve_nodes ds outs idx (n ∷ ns) = resolve_node ds outs idx n ∷ resolve_nodes ds outs (suc idx) ns

-- Part (b), on the levels of the nodes.
abbrev pub evaluate : List Level → Gate → Gate
evaluate levels g = record g { out = eval_gate g levels }

abbrev pub levels_of : List Node → List Level
levels_of ns = map (λ n. n.level) ns

abbrev pub outs_of : List Gate → List Level
outs_of gs = map (λ g. g.out) gs

abbrev pub same_levels : List Level → List Level → Bool
same_levels [] [] = true
same_levels (l ∷ ls) (k ∷ ks) = same_level l k && same_levels ls ks
same_levels _ _ = false

-- The nodes, the gates, the host, and whether the last pass changed something.
abbrev pub Settled : Type 0 → Type 0
Settled C = List Node × List Gate × C × Bool

module _ {C : Type 0} (host : Host C) (ds : Drivers) where
  abbrev pub pass : List Node → List Gate → C → Settled C
  pass ns gs ctx =
      let ns' = resolve_nodes ds (outs_of gs) 0 ns in
      let gs' = map (evaluate (levels_of ns')) gs in
      (
        ns',
        gs',
        warn_nodes host ctx ds (outs_of gs) 0 ns,
        not (same_levels (levels_of ns) (levels_of ns') && same_levels (outs_of gs) (outs_of gs')),
      )

  -- The settle loop, with the passes left: it stops after a pass that changes nothing.
  unfoldable pub settle : ℕ → List Node → List Gate → C → Settled C
  settle zero ns gs ctx = (ns, gs, ctx, true)
  settle (suc left) ns gs ctx =
      let (ns', gs', ctx', changed) = pass ns gs ctx in
      let rest = settle left ns' gs' ctx' in if changed then rest else (ns', gs', ctx', false)

module _ {C : Type 0} (host : Host C) where
  -- The resolved level goes to every bound pin that is an input.
  unfoldable pub deliver : List Level → List Endpoint → C → C
  deliver levels [] ctx = ctx
  deliver levels (ep ∷ eps) ctx = deliver levels eps (elim ep.handle [
    | none ↦ ctx
    | some h ↦ if ep.is_output then ctx else host.write_input ctx h (level_at levels ep.node)
  ])

  unfoldable pub step : Net → C → Net × C
  step net ctx =
      let eps = map (refresh host ctx) net.endpoints in
      let ds : Drivers = map (λ ep. (ep.node, pin_driver host ctx ep)) eps in
      let (ns, gs, ctx', oscillating) = settle host ds 16 net.nodes net.gates ctx in
      let warns = oscillating && not net.warned_oscillation in
      (
        record {
          nodes = ns;
          endpoints = eps;
          gates = gs;
          warned_oscillation = if oscillating then true else net.warned_oscillation;
        },
        deliver (levels_of ns) eps (if warns then host.warn ctx' oscillation else ctx'),
      )
