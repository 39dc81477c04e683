-- ===== src/Net/Laws.antt =====
-- src/logic_net.cpp: what a step leaves behind.
use tool_i8085_trace.Prelude.{
  zero, suc, ◌≡◌, refl, sym, ap, ◌∙◌, Bool, true, false, not, ◌&&◌, ◌||◌, List, [], ◌∷◌, map, arith,
  if◌then◌else◌,
}
use tool_i8085_trace.Prelude.{ℕ}
use tool_i8085_trace.Net.Gates.{
  Level, lvl_0, lvl_1, lvl_x, GateType, g_inv, g_buf, g_and, g_or, g_nand, g_nor, Gate, same_level,
  scan, eval_inputs, eval_single, eval_gate, inverted,
}
use tool_i8085_trace.Net.{
  Host, Node, Net, Drivers, same_levels, pin_driver, refresh, resolved, resolve_nodes, evaluate,
  levels_of, outs_of, pass, settle, step, Settled,
}

same_level_eq : (l k : Level) → same_level l k ≡ true → l ≡ k
same_level_eq l k h = ground arith

same_levels_eq : (ls ks : List Level) → same_levels ls ks ≡ true → ls ≡ ks
same_levels_eq [] [] h = refl
same_levels_eq [] (k ∷ ks) h = ground arith
same_levels_eq (l ∷ ls) [] h = ground arith
same_levels_eq (l ∷ ls) (k ∷ ks) h = ground (arith, same_level_eq l k, same_levels_eq ls ks)

-- A pass would change nothing: every node has the level of its drivers, and every gate the output
-- of its inputs.
abbrev pub IsStable : Drivers → List Node → List Gate → Type 0
IsStable ds ns gs =
    (levels_of (resolve_nodes ds (outs_of gs) 0 ns) ≡ levels_of ns)
    × (outs_of (map (evaluate (levels_of ns)) gs) ≡ outs_of gs)

-- A resolution does not touch what another one reads of the nodes.
resolve_nodes_again :
    (ds : Drivers) (o p : List Level) (idx : ℕ) (ns : List Node)
    → levels_of (resolve_nodes ds o idx (resolve_nodes ds p idx ns))
      ≡ levels_of (resolve_nodes ds o idx ns)
resolve_nodes_again ds o p idx [] = refl
resolve_nodes_again ds o p idx (n ∷ ns) =
    ap (λ ls. resolved ds o idx n ∷ ls) (resolve_nodes_again ds o p (suc idx) ns)

evaluate_again :
    (l k : List Level) (gs : List Gate)
    → outs_of (map (evaluate l) (map (evaluate k) gs)) ≡ outs_of (map (evaluate l) gs)
evaluate_again l k [] = refl
evaluate_again l k (g ∷ gs) = ap (λ ls. eval_gate g l ∷ ls) (evaluate_again l k gs)

-- After a pass that leaves the gates' outputs alone.
pass-IsStable :
    (ds : Drivers) (ns : List Node) (gs : List Gate)
    → let ns' = resolve_nodes ds (outs_of gs) 0 ns in
      let gs' = map (evaluate (levels_of ns')) gs in outs_of gs ≡ outs_of gs' → IsStable ds ns' gs'
pass-IsStable ds ns gs e =
    let ns' = resolve_nodes ds (outs_of gs) 0 ns in
    (
      ap (λ o. levels_of (resolve_nodes ds o 0 ns')) (sym e)
          ∙ resolve_nodes_again ds (outs_of gs) (outs_of gs) 0 ns,
      evaluate_again (levels_of ns') (levels_of ns') gs,
    )

-- A choice has what both of its sides have, each where it is chosen.
chosen :
    {A : Type 0} (P : A → Type 0) (b : Bool) (x y : A)
    → P x
    → (b ≡ false → P y)
    → P (if b then x else y)
chosen P true x y f g = f
chosen P false x y f g = g refl

unchanged_outs : (a : Bool) (o p : List Level) → not (a && same_levels o p) ≡ false → o ≡ p
unchanged_outs a o p h = same_levels_eq o p (ground arith)

settle-IsStable :
    {C : Type 0} (host : Host C) (ds : Drivers) (left : ℕ) (ns : List Node) (gs : List Gate)
    (ctx : C)
    → (λ (st : Settled C). st.3 ≡ false → IsStable ds st.0 st.1) (settle host ds left ns gs ctx)
unfolding settle
settle-IsStable host ds zero ns gs ctx = λ h. ground arith
settle-IsStable {C} host ds (suc left) ns gs ctx =
    let (ns', gs', ctx', changed) = pass host ds ns gs ctx in
    chosen (λ (st : Settled C). st.3 ≡ false → IsStable ds st.0 st.1) changed
      (settle host ds left ns' gs' ctx') (ns', gs', ctx', false)
      (settle-IsStable host ds left ns' gs' ctx')
      (λ e h.
        pass-IsStable ds ns gs (
          unchanged_outs (same_levels (levels_of ns) (levels_of ns')) (outs_of gs) (outs_of gs') e))

-- Unless the step has raised the oscillation warning, now or earlier, it leaves a stable net: every
-- node has the level that its drivers and its pull give it, and every gate the output of its inputs.
pub step-IsStable :
    {C : Type 0} (host : Host C) (net : Net) (ctx : C)
    → (step host net ctx).0.warned_oscillation ≡ false
    → let t = (step host net ctx).0 in
      IsStable (map (λ ep. (ep.node, pin_driver host ctx ep)) t.endpoints) t.nodes t.gates
unfolding step
step-IsStable host net ctx h =
    let eps = map (refresh host ctx) net.endpoints in
    settle-IsStable host (map (λ ep. (ep.node, pin_driver host ctx ep)) eps) 16 net.nodes net.gates
      ctx (ground arith)

-- What is unknown may turn out to be either level.
abbrev pub refines : Level → Level → Bool
refines l k = same_level l lvl_x || same_level l k

abbrev pub all_refine : List Level → List Level → Bool
all_refine [] [] = true
all_refine (l ∷ ls) (k ∷ ks) = refines l k && all_refine ls ks
all_refine _ _ = false

-- Once an input is X, the output is X or what a strong input gives.
scan_doubtful :
    (strong found otherwise : Level) (vs : List Level)
    → refines (scan strong found otherwise vs true) found ≡ true
scan_doubtful s f o [] = ground arith
scan_doubtful s f o (v ∷ vs) = ground (arith, scan_doubtful s f o vs)

scan_unknown :
    (strong found otherwise : Level) (vs ws : List Level) (b : Bool)
    → all_refine vs ws ≡ true
    → same_level strong lvl_x ≡ false
    → refines (scan strong found otherwise vs true) (scan strong found otherwise ws b) ≡ true
scan_unknown s f o [] [] b r n = ground arith
scan_unknown s f o (v ∷ vs) [] b r n = ground arith
scan_unknown s f o [] (w ∷ ws) b r n = ground arith
scan_unknown s f o (v ∷ vs) (w ∷ ws) b r n =
    ground
      (arith, scan_doubtful s f o vs, scan_unknown s f o vs ws true, scan_unknown s f o vs ws b)

scan-refines :
    (strong found otherwise : Level) (vs ws : List Level)
    → all_refine vs ws ≡ true
    → same_level strong lvl_x ≡ false
    → refines (scan strong found otherwise vs false) (scan strong found otherwise ws false) ≡ true
scan-refines s f o [] [] r n = ground arith
scan-refines s f o (v ∷ vs) [] r n = ground arith
scan-refines s f o [] (w ∷ ws) r n = ground arith
scan-refines s f o (v ∷ vs) (w ∷ ws) r n = ground (
  arith,
  scan_doubtful s f o vs,
  scan_unknown s f o vs ws false,
  scan_unknown s f o vs ws true,
  scan-refines s f o vs ws,
)

single_refines :
    (f : Level → Level) (vs ws : List Level)
    → ((l k : Level) → refines l k ≡ true → refines (f l) (f k) ≡ true)
    → all_refine vs ws ≡ true
    → refines (eval_single f vs) (eval_single f ws) ≡ true
single_refines f [] [] m r = refl
single_refines f (v ∷ []) (w ∷ []) m r = m v w (ground arith)
single_refines f (v ∷ v' ∷ vs) (w ∷ w' ∷ ws) m r = refl
single_refines f [] (w ∷ ws) m r = ground arith
single_refines f (v ∷ vs) [] m r = ground arith
single_refines f (v ∷ []) (w ∷ w' ∷ ws) m r = ground arith
single_refines f (v ∷ v' ∷ vs) (w ∷ []) m r = ground arith

-- A gate is right about what it does not know: when inputs at X turn out to be 0 or 1, an output
-- that was 0 or 1 stays.
pub eval_inputs_refine :
    (t : GateType) (vs ws : List Level)
    → all_refine vs ws ≡ true
    → refines (eval_inputs t vs) (eval_inputs t ws) ≡ true
eval_inputs_refine g_inv vs ws r = single_refines inverted vs ws (λ l k e. ground arith) r
eval_inputs_refine g_buf vs ws r = single_refines (λ l. l) vs ws (λ l k e. e) r
eval_inputs_refine g_and vs ws r = scan-refines lvl_0 lvl_0 lvl_1 vs ws r refl
eval_inputs_refine g_or vs ws r = scan-refines lvl_1 lvl_1 lvl_0 vs ws r refl
eval_inputs_refine g_nand vs ws r = scan-refines lvl_0 lvl_1 lvl_0 vs ws r refl
eval_inputs_refine g_nor vs ws r = scan-refines lvl_1 lvl_0 lvl_1 vs ws r refl
