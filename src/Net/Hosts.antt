-- ===== src/Net/Hosts.antt =====
-- src/logic_net.cpp: what the host's callbacks keep, a step of the net keeps.
use tool_i8085_trace.Prelude.{
  ℕ, zero, suc, Bool, false, not, ◌&&◌, Option, none, some, List, [], ◌∷◌, map, if◌then◌else◌,
  if_both,
}
use tool_i8085_trace.Net.{
  Host, Net, Node, Endpoint, Drivers, Settled, Warning, conflict, floating, oscillation,
  in_conflict, is_open, warn_node, warn_nodes, levels_of, outs_of, pass, settle, deliver, step,
  refresh, pin_driver,
}
use tool_i8085_trace.Net.Gates.{Level, Gate, level_at}

-- The callbacks that change the host's state keep `P`.
pub record HostKeeps {C : Type 0} (host : Host C) (P : C → Type 0) : Type 0 where
  pub on_write_input : (ctx : C) (h : ℕ) (level : Level) → P ctx → P (host.write_input ctx h level)
  pub on_warn : (ctx : C) (w : Warning) → P ctx → P (host.warn ctx w)

module _ {C : Type 0} (host : Host C) (P : C → Type 0) (keeps : HostKeeps host P) where
  warn_nodes-keeps :
      (ns : List Node) (ctx : C) (ds : Drivers) (outs : List Level) (idx : ℕ)
      → P ctx
      → P (warn_nodes host ctx ds outs idx ns)
  warn_nodes-keeps [] ctx ds outs idx h = h
  warn_nodes-keeps (n ∷ ns) ctx ds outs idx h =
      let warned : (w : Warning) (b : Bool) → P (if b then ctx else host.warn ctx w) =
        λ w b. if_both P b ctx (host.warn ctx w) h (keeps.on_warn ctx w h) in
      warn_nodes-keeps ns (warn_node host ctx ds outs idx n) ds outs (suc idx) (
        if_both P (in_conflict ds outs idx n) _ _ (warned conflict n.warned_conflict)
          (if_both P (is_open ds outs idx n) _ _ (warned floating n.warned_float) h))

  settle-keeps :
      (left : ℕ) (ds : Drivers) (ns : List Node) (gs : List Gate) (ctx : C)
      → P ctx
      → P (settle host ds left ns gs ctx).2
  unfolding settle
  settle-keeps zero ds ns gs ctx h = h
  settle-keeps (suc left) ds ns gs ctx h =
      let (ns', gs', ctx', changed) = pass host ds ns gs ctx in
      let h' : P ctx' = warn_nodes-keeps ns ctx ds (outs_of gs) 0 h in
      if_both (λ (t : Settled C). P t.2) changed (settle host ds left ns' gs' ctx')
        (ns', gs', ctx', false) (settle-keeps left ds ns' gs' ctx' h') h'

  deliver-keeps :
      (eps : List Endpoint) (levels : List Level) (ctx : C)
      → P ctx
      → P (deliver host levels eps ctx)
  unfolding deliver
  deliver-keeps [] levels ctx h = h
  deliver-keeps (ep ∷ eps) levels ctx h = deliver-keeps eps levels _ (to_pin ep.handle)
    where
      to_pin :
          (handle : Option ℕ)
          → P (elim handle [
            | none ↦ ctx
            | some p ↦
                if ep.is_output then ctx else host.write_input ctx p (level_at levels ep.node)
          ])
      to_pin none = h
      to_pin (some p) = if_both P ep.is_output _ _ h (keeps.on_write_input ctx p _ h)

  pub step-keeps : (net : Net) (ctx : C) → P ctx → P (step host net ctx).1
  unfolding step
  step-keeps net ctx h =
      let eps = map (refresh host ctx) net.endpoints in
      let ds : Drivers = map (λ ep. (ep.node, pin_driver host ctx ep)) eps in
      let (ns, gs, ctx', oscillating) = settle host ds 16 net.nodes net.gates ctx in
      let h' : P ctx' = settle-keeps 16 ds net.nodes net.gates ctx h in
      deliver-keeps eps (levels_of ns) _ (
        if_both P (oscillating && not net.warned_oscillation) _ _
          (keeps.on_warn ctx' oscillation h') h')
