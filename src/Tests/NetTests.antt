-- ===== src/Tests/NetTests.antt =====
-- src/logic_net.cpp: the theorems at a concrete net.
use tool_i8085_trace.Prelude.{
  ◌≡◌, refl, true, false, none, some, List, [], ◌∷◌, map, ◌==◌, if◌then◌else◌,
}
use tool_i8085_trace.Prelude.{ℕ}
use tool_i8085_trace.Net.Gates.{Level, lvl_0, lvl_1, lvl_x, g_inv, g_nand, eval_inputs}
use tool_i8085_trace.Net.{
  drv_0, drv_z, Pull, pull_none, pull_up, Host, Node, Endpoint, Net, settle, step, deliver,
  pin_driver,
}
use mathlib.Core.List.Perm
use tool_i8085_trace.Net.Order.{step-perm}
use tool_i8085_trace.Net.Laws.{IsStable, step-IsStable, refines, eval_inputs_refine}

-- Pins 0 and 1 drive nothing or low; what input pins are given is logged.
abbrev bench : Host (List (ℕ × Level))
bench = record {
  read_output = λ ctx h. if h == 0 then drv_z else drv_0;
  write_input = λ ctx h l. (h, l) ∷ ctx;
  warn = λ ctx w. ctx;
  is_output = none;
}

abbrev wire : Pull → List ℕ → Node
wire pull sources = record {
  pull = pull;
  level = lvl_x;
  warned_conflict = false;
  warned_float = false;
  gate_sources = sources;
}

-- A pulled-up wire with an open drain on it, a low wire, and the NAND and the inverter behind them.
abbrev circuit : Net
circuit = record {
  nodes =
      wire pull_up [] ∷ wire pull_none [] ∷ wire pull_none (0 ∷ []) ∷ wire pull_none (1 ∷ []) ∷ [];
  endpoints =
      record { node = 0; handle = some 0; is_output = true }
      ∷ record { node = 1; handle = some 1; is_output = true }
      ∷ record { node = 3; handle = some 2; is_output = false }
      ∷ [];
  gates =
      record { type = g_nand; in_nodes = 0 ∷ 1 ∷ []; out_node = 2; out = lvl_x }
      ∷ record { type = g_inv; in_nodes = 2 ∷ []; out_node = 3; out = lvl_x }
      ∷ [];
  warned_oscillation = false;
}

circuit_delivers : (step bench circuit []).1 ≡ (2, lvl_0) ∷ []
unfolding settle step deliver
circuit_delivers = refl

step-IsStable_example :
    let t = (step bench circuit []).0 in
    IsStable (map (λ ep. (ep.node, pin_driver bench [] ep)) t.endpoints) t.nodes t.gates
unfolding settle step
step-IsStable_example = step-IsStable bench circuit [] refl

eval_inputs_refine_example :
    refines (eval_inputs g_nand (lvl_x ∷ lvl_0 ∷ [])) (eval_inputs g_nand (lvl_1 ∷ lvl_0 ∷ []))
    ≡ true
eval_inputs_refine_example =
    eval_inputs_refine g_nand (lvl_x ∷ lvl_0 ∷ []) (lvl_1 ∷ lvl_0 ∷ []) refl

-- The circuit's pull-up's pin and the low one, the other way around.
abbrev crossed : List Endpoint
crossed =
    record { node = 1; handle = some 1; is_output = true }
    ∷ record { node = 0; handle = some 0; is_output = true }
    ∷ record { node = 3; handle = some 2; is_output = false }
    ∷ []

step-perm_example :
    let t = (step bench circuit []).0 in
    let u = (step bench (record circuit { endpoints = crossed }) []).0 in
    (t.nodes ≡ u.nodes) × (t.gates ≡ u.gates) × (t.warned_oscillation ≡ u.warned_oscillation)
step-perm_example = step-perm bench [] circuit crossed (Perm.swap _ _ _)
