-- ===== src/Net/Gates.antt =====
-- src/logic_net.h, src/logic_net.cpp: the three levels of a wire, and the gates.
use tool_i8085_trace.Prelude.{
  get_elem?, Bool, true, false, none, some, List, [], ◌∷◌, map, if◌then◌else◌,
}
use tool_i8085_trace.Prelude.{ℕ}

pub data Level : Type 0 where
  lvl_0 lvl_1 lvl_x : Level

pub data GateType : Type 0 where
  g_inv g_buf g_and g_or g_nand g_nor : GateType

pub record Gate : Type 0 where
  pub type : GateType
  pub in_nodes : List ℕ
  pub out_node : ℕ
  pub out : Level

abbrev pub same_level : Level → Level → Bool
same_level lvl_0 lvl_0 = true
same_level lvl_1 lvl_1 = true
same_level lvl_x lvl_x = true
same_level _ _ = false

-- `v[i]`; an index past the end, which C leaves undefined, reads X.
abbrev pub level_at : List Level → ℕ → Level
level_at ls i = elim (get_elem? ls i) [ none ↦ lvl_x | some l ↦ l ]

-- INV, and also what NAND and NOR do to AND and OR.
abbrev pub inverted : Level → Level
inverted lvl_0 = lvl_1
inverted lvl_1 = lvl_0
inverted lvl_x = lvl_x

-- The loop of AND, OR, NAND and NOR: `strong` at an input decides the output at once.
abbrev pub scan : (strong found otherwise : Level) → List Level → Bool → Level
scan strong found otherwise [] has_x = if has_x then lvl_x else otherwise
scan strong found otherwise (v ∷ vs) has_x =
    let rest = scan strong found otherwise vs (if same_level v lvl_x then true else has_x) in
    if same_level v strong then found else rest

abbrev pub eval_single : (Level → Level) → List Level → Level
eval_single f (v ∷ []) = f v
eval_single f _ = lvl_x

-- `evalGate`, on the values of its input nodes.
abbrev pub eval_inputs : GateType → List Level → Level
eval_inputs g_inv vs = eval_single inverted vs
eval_inputs g_buf vs = eval_single (λ v. v) vs
eval_inputs g_and vs = scan lvl_0 lvl_0 lvl_1 vs false
eval_inputs g_or vs = scan lvl_1 lvl_1 lvl_0 vs false
eval_inputs g_nand vs = scan lvl_0 lvl_1 lvl_0 vs false
eval_inputs g_nor vs = scan lvl_1 lvl_0 lvl_1 vs false

abbrev pub eval_gate : Gate → List Level → Level
eval_gate g values = eval_inputs g.type (map (level_at values) g.in_nodes)
