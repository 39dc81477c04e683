-- ===== src/Runtime/Wiring/Netlist.antt =====
-- src/io_runtime.cpp: `io_runtime_load_netlist`, which parses a text and binds its pins, on the text
-- that is read. The callback of `bind` appends to the pin table.
use tool_i8085_trace.Prelude.{
  length, get_elem?, ℕ, ◌≡◌, refl, sym, ◌∙◌, Bool, Option, none, some, List, [], ◌∷◌, ◌++◌, map,
  arith,
}
use Prim.Native.Nat.{ℕ}
use mathlib.Core.Path.{subst}
use mathlib.Core.List.{append-nil, append_assoc}
use tool_i8085_trace.Cpu.State.{State}
use tool_i8085_trace.Net.{Endpoint, Net, refresh}
use tool_i8085_trace.Net.Parser.{Wire, Netlist, Parsed, done, failed, parse, bind, bind_endpoints}
use tool_i8085_trace.Runtime.{Plugin, Runtime}
use tool_i8085_trace.Runtime.Wiring.{PinHandle, wires}
use tool_i8085_trace.Runtime.Wiring.Resolve.{Found, resolve}
use tool_i8085_trace.Runtime.Wiring.Laws.{resolve-pin_is_output}

-- The callback: `gRuntime.pinTable.push_back`, and the handle.
unfoldable pub resolver : List Plugin → List PinHandle → List ℕ → Option (ℕ × Bool × List PinHandle)
resolver plugins table pin = elim (resolve plugins pin) [
  | none ↦ none
  | some (ph, is_output) ↦ some (length table, is_output, table ++ ph ∷ [])
]

-- `io_runtime_load_netlist`; `none` for a text or a pin that is refused.
unfoldable pub load_netlist : List Plugin → List PinHandle → List ℕ → Option (Net × List PinHandle)
load_netlist plugins table text = elim (parse text) [
  | failed line problem ↦ none
  | done net ↦ bind (resolver plugins) table net
]

get_elem?-append :
    {A : Type 0} (before : List A) (x : A) (more : List A)
    → get_elem? (before ++ x ∷ more) (length before) ≡ some x
get_elem?-append [] x more = refl
get_elem?-append (y ∷ ys) x more = get_elem?-append ys x more

step_none :
    (plugins : List Plugin) (table : List PinHandle) (w : Wire) (ws : List Wire)
    → resolve plugins w.pin ≡ none
    → bind_endpoints (resolver plugins) table (w ∷ ws) ≡ none
unfolding bind_endpoints resolver
step_none plugins table w ws e = ground arith

step_some :
    (plugins : List Plugin) (table : List PinHandle) (w : Wire) (ws : List Wire) (found : Found)
    → resolve plugins w.pin ≡ some found
    → bind_endpoints (resolver plugins) table (w ∷ ws)
      ≡ elim (bind_endpoints (resolver plugins) (table ++ found.0 ∷ []) ws) [
        | none ↦ none
        | some (eps, last) ↦ some (
          record { node = w.node; handle = some (length table); is_output = found.1 } ∷ eps,
          last,
        )
      ]
unfolding bind_endpoints resolver
step_some plugins table w ws found e = ground arith

module _ {D : Type 0} (plugins : List Plugin) (s : State (Runtime D))
    (same : s.world.plugins ≡ plugins) where
  -- A table that goes on from another, and endpoints whose directions a look through it leaves.
  abbrev Bound : List PinHandle → Option (List Endpoint × List PinHandle) → Type 0
  Bound table none = Unit {0}
  Bound table (some (eps, last)) =
      ((more : List PinHandle) × last ≡ table ++ more) × map (refresh (wires last) s) eps ≡ eps

  refresh_bound :
      (table more last : List PinHandle) (node : ℕ) (found : Found) (pin : List ℕ)
      → resolve plugins pin ≡ some found
      → last ≡ table ++ found.0 ∷ more
      → let ep : Endpoint = record {
        node = node;
        handle = some (length table);
        is_output = found.1;
      } in
        refresh (wires last) s ep ≡ ep
  refresh_bound table more last node found pin e1 e2 =
      ground (
        arith,
        same,
        get_elem?-append table found.0 more,
        resolve-pin_is_output plugins pin found e1,
      )

  rest-Bound :
      (w : Wire) (table : List PinHandle) (found : Found)
      (rest : Option (List Endpoint × List PinHandle))
      → resolve plugins w.pin ≡ some found
      → Bound (table ++ found.0 ∷ []) rest
      → Bound table (elim rest [
        | none ↦ none
        | some (eps, last) ↦ some (
          record { node = w.node; handle = some (length table); is_output = found.1 } ∷ eps,
          last,
        )
      ])
  rest-Bound w table found none e b = tt
  rest-Bound w table found (some (eps, last)) e ((more, longer), b) =
      let flat : last ≡ table ++ found.0 ∷ more = longer ∙ append_assoc table (found.0 ∷ []) more in
      (
        (found.0 ∷ more, flat),
        ground (arith, b, refresh_bound table more last w.node found w.pin e flat),
      )

  wire-Bound :
      (w : Wire) (ws : List Wire) (table : List PinHandle) (q : Option Found)
      → resolve plugins w.pin ≡ q
      → ((t : List PinHandle) → Bound t (bind_endpoints (resolver plugins) t ws))
      → Bound table (bind_endpoints (resolver plugins) table (w ∷ ws))
  wire-Bound w ws table none e ih = subst (Bound table) (sym (step_none plugins table w ws e)) tt
  wire-Bound w ws table (some found) e ih =
      subst (Bound table) (sym (step_some plugins table w ws found e)) (
        rest-Bound w table found (bind_endpoints (resolver plugins) (table ++ found.0 ∷ []) ws) e
          (ih (table ++ found.0 ∷ [])))

  endpoints-Bound :
      (ws : List Wire) (table : List PinHandle)
      → Bound table (bind_endpoints (resolver plugins) table ws)
  unfolding bind_endpoints
  endpoints-Bound [] table = (([], sym (append-nil table)), refl)
  endpoints-Bound (w ∷ ws) table =
      wire-Bound w ws table (resolve plugins w.pin) refl (λ t. endpoints-Bound ws t)

  bind-Bound :
      (list : Netlist) (table last : List PinHandle) (net : Net)
      → (q : Option (List Endpoint × List PinHandle))
      → bind_endpoints (resolver plugins) table list.endpoints ≡ q
      → Bound table q
      → bind (resolver plugins) table list ≡ some (net, last)
      → map (refresh (wires last) s) net.endpoints ≡ net.endpoints
  unfolding bind
  bind-Bound list table last net none e b r = ground (arith, e)
  bind-Bound list table last net (some (eps, l)) e b r =
      let ends : net.endpoints ≡ eps = ground (arith, e) in
      let tables : last ≡ l = ground (arith, e) in rw (ends, tables) b.1

  parsed_bound :
      (result : Parsed) (table last : List PinHandle) (net : Net)
      → (let loaded : Option (Net × List PinHandle) = elim result [
        | failed line problem ↦ none
        | done list ↦ bind (resolver plugins) table list
      ] in
          loaded ≡ some (net, last))
      → map (refresh (wires last) s) net.endpoints ≡ net.endpoints
  parsed_bound (failed line problem) table last net e = ground (arith, e)
  parsed_bound (done list) table last net e =
      bind-Bound list table last net (bind_endpoints (resolver plugins) table list.endpoints) refl
        (endpoints-Bound list.endpoints table) e

  -- A step finds the directions that the load reported: for a netlist that is loaded over the plugins
  -- of a state, whatever its text and whatever stood in the pin table, the live look at every pin, which
  -- begins each step, leaves the endpoints as they were bound.
  pub load_netlist-refresh :
      (table last : List PinHandle) (text : List ℕ) (net : Net)
      → load_netlist plugins table text ≡ some (net, last)
      → map (refresh (wires last) s) net.endpoints ≡ net.endpoints
  unfolding load_netlist
  load_netlist-refresh table last text net e = parsed_bound (parse text) table last net e
