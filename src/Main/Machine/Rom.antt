-- ===== src/Main/Machine/Rom.antt =====
-- plugins/memory.cpp under src/main.cpp: a protected byte through a whole run.
use tool_i8085_trace.Prelude.{ℕ, ◌+◌, ◌^◌, ◌<◌, ◌≡◌, refl, ◌∙◌, true, arith, List}
use tool_i8085_trace.Cpu.State.{State}
use tool_i8085_trace.Cpu.Stack.{mem_wr}
use tool_i8085_trace.Cpu.Frame.{Keeps, seen, emulate_op-Keeps}
use tool_i8085_trace.Runtime.{DiskApi, Runtime, board}
use tool_i8085_trace.Runtime.Rom.{guarded, board-Keeps, is_rom}
use tool_i8085_trace.Runtime.Wiring.Rom.{on_step-guarded, trigger_interrupt-seen}
use tool_i8085_trace.Main.{Config, Run, run}
use tool_i8085_trace.Main.Keeps.{RunKeeps, run-keeps}
use tool_i8085_trace.Main.Machine.{Globals, chips, hooks, step_globals}

module _ {D : Type 0} where
  -- The same of the whole program's globals.
  abbrev in_globals : {X : Type 0} → ((ℕ → ℕ) → Runtime D → X) → (ℕ → ℕ) → Globals D → X
  in_globals obs m g = obs m g.runtime

  hooks-Keeps :
      {X : Type 0} (obs : (ℕ → ℕ) → Runtime D → X) (api : DiskApi D)
      → Keeps (board api) obs
      → Keeps (hooks api) (in_globals obs)
  unfolding mem_wr
  hooks-Keeps obs api keeps = record {
    on_mem_wr = λ s a v. keeps.on_mem_wr (chips s) a v;
    on_io_write = λ s a v. keeps.on_io_write (chips s) a v;
    on_io_pre_read = λ s a. keeps.on_io_pre_read (chips s) a;
    on_io_read = λ s a v. keeps.on_io_read (chips s) a v;
  }

  step_globals-guarded :
      (x : ℕ) (received : ℕ → List (List ℕ)) (s : State (Globals D)) (step tstates : ℕ)
      → seen (in_globals (guarded x)) (step_globals received s step tstates)
        ≡ seen (in_globals (guarded x)) s
  unfolding step_globals
  step_globals-guarded x received s step tstates =
      let g = s.world in
      on_step-guarded x g.net g.wiring g.pin_table (chips s) (received step) step tstates

-- In a run of the whole program, with any disk emulator, plugins, netlist, options and bytes from the
-- channels, the byte at an address that a loaded memory plugin protects never changes, and the
-- protection stays, as long as the steps do not reach 2^64.
pub run-rom :
    {D : Type 0} (api : DiskApi D) (received : ℕ → List (List ℕ)) (cfg : Config) (left x : ℕ)
    (r : Run (Globals D))
    → left + r.step < 2 ^ 64
    → is_rom r.state.world.runtime x ≡ true
    → let t = (run (hooks api) (step_globals received) cfg left r).0.state in
      (t.memory x ≡ r.state.memory x) × (is_rom t.world.runtime x ≡ true)
run-rom api received cfg left x r small rom =
    let obs = in_globals (guarded x) in
    let bus = hooks api in
    let start = seen obs r.state in
    let kept : RunKeeps bus (step_globals received) (λ s. seen obs s ≡ start) = record {
      on_interrupt = λ s code active h. trigger_interrupt-seen obs s code active ∙ h;
      on_instruction = λ s stats h.
          emulate_op-Keeps bus obs (hooks-Keeps (guarded x) api (board-Keeps api x)) s stats ∙ h;
      on_step_hook = λ s step total h. step_globals-guarded x received s step total ∙ h;
    } in
    ground (
      arith,
      run-keeps bus (step_globals received) (λ s. seen obs s ≡ start) kept cfg left r small refl,
    )
