-- ===== src/Runtime/Wiring/Rom.antt =====
-- plugins/memory.cpp under src/io_runtime.cpp: neither the plugins' steps nor the netlist reach a
-- protected byte.
use tool_i8085_trace.Prelude.{
  ℕ, zero, suc, ◌≡◌, refl, ◌∙◌, arith, Bool, Option, none, some, List, [], ◌∷◌, if_both, get_elem?,
}
use tool_i8085_trace.Cpu.State.{State, trigger_interrupt}
use tool_i8085_trace.Cpu.Frame.{seen}
use tool_i8085_trace.Plugins.Acia
use tool_i8085_trace.Net
use tool_i8085_trace.Net.{Net}
use tool_i8085_trace.Net.Gates.{Level, lvl_0, lvl_1, lvl_x}
use tool_i8085_trace.Net.Hosts.{HostKeeps, step-keeps}
use tool_i8085_trace.Runtime.{Plugin, memory, i8255, pit8254, mc6850, Runtime}
use tool_i8085_trace.Runtime.Rom.{shields, guarded}
use tool_i8085_trace.Runtime.Wiring.{
  PinHandle, drive_cpu, drive_pin, level_number, pin_set, update_at, wires, step_plugins, on_step,
  drop_one, first_of,
}

shields-update_at :
    (x : ℕ) (ps : List Plugin) (i : ℕ) (sub : List ℕ) (level : ℕ)
    → shields (update_at ps i (λ p. pin_set p sub level)) x ≡ shields ps x
unfolding update_at pin_set
shields-update_at x [] i sub level = refl
shields-update_at x (memory c ∷ ps) zero sub level = refl
shields-update_at x (i8255 c ∷ ps) zero [] level = refl
shields-update_at x (i8255 c ∷ ps) zero (letter ∷ digits) level = refl
shields-update_at x (pit8254 c ∷ ps) zero sub level = refl
shields-update_at x (mc6850 c ∷ ps) zero sub level = refl
shields-update_at x (memory c ∷ ps) (suc i) sub level = rw (shields-update_at x ps i sub level)
shields-update_at x (i8255 c ∷ ps) (suc i) sub level = shields-update_at x ps i sub level
shields-update_at x (pit8254 c ∷ ps) (suc i) sub level = shields-update_at x ps i sub level
shields-update_at x (mc6850 c ∷ ps) (suc i) sub level = shields-update_at x ps i sub level

-- The input lines are not in memory.
pub trigger_interrupt-seen :
    {W X : Type 0} (obs : (ℕ → ℕ) → W → X) (s : State W) (code active : ℕ)
    → seen obs (trigger_interrupt s code active).0 ≡ seen obs s
unfolding trigger_interrupt
trigger_interrupt-seen obs s code active = ground arith

module _ {D : Type 0} where
  drive_cpu-seen :
      {X : Type 0} (obs : (ℕ → ℕ) → Runtime D → X) (s : State (Runtime D)) (pin : List ℕ)
      (active : ℕ)
      → seen obs (drive_cpu s pin active) ≡ seen obs s
  unfolding drive_cpu
  drive_cpu-seen obs s pin active = ground (
    arith,
    trigger_interrupt-seen obs s 75 active,
    trigger_interrupt-seen obs s 65 active,
    trigger_interrupt-seen obs s 55 active,
    trigger_interrupt-seen obs s 45 active,
  )

  drive_pin-guarded :
      (x : ℕ) (s : State (Runtime D)) (ph : PinHandle) (level : Level)
      → seen (guarded x) (drive_pin s ph level) ≡ seen (guarded x) s
  unfolding drive_pin
  drive_pin-guarded x s ph level = to ph.plugin
    where
      to :
          (plugin : Option ℕ)
          → seen (guarded x) (elim plugin [
            | none ↦ drive_cpu s ph.field (elim level [ lvl_1 ↦ 1 | lvl_0 ↦ 0 | lvl_x ↦ 0 ])
            | some idx ↦
                let r = s.world in
                record s {
                  world = record r {
                    plugins = update_at r.plugins idx (λ p. pin_set p ph.sub (level_number level));
                  };
                }
          ])
            ≡ seen (guarded x) s
      to none = drive_cpu-seen (guarded x) s ph.field _
      to (some idx) = rw (shields-update_at x s.world.plugins idx ph.sub (level_number level))

  -- What the net drives leaves the protected byte as `start` has it.
  wires-guarded :
      (x : ℕ) (start : Bool × ℕ) (table : List PinHandle)
      → HostKeeps (wires table) (λ (t : State (Runtime D)). seen (guarded x) t ≡ start)
  wires-guarded x start table = record {
    on_write_input = λ s i level h. to s level h (get_elem? table i);
    on_warn = λ s w h. h;
  }
    where
      to :
          (s : State (Runtime D)) (level : Level)
          → seen (guarded x) s ≡ start
          → (ph : Option PinHandle)
          → seen (guarded x) (elim ph [ none ↦ s | some ph ↦ drive_pin s ph level ]) ≡ start
      to s level h none = h
      to s level h (some ph) = drive_pin-guarded x s ph level ∙ h

  step_plugins-shields :
      (x : ℕ) (ps : List Plugin) (s : State (Runtime D)) (received : List (List ℕ)) (wiring : Bool)
      (step tstates : ℕ)
      → let (qs, t) = step_plugins ps s received wiring step tstates in
        (shields qs x ≡ shields ps x) × (t.memory ≡ s.memory) × (t.world ≡ s.world)
  unfolding step_plugins Acia.on_step
  step_plugins-shields x [] s received wiring step tstates = (refl, refl, refl)
  step_plugins-shields x (memory c ∷ ps) s received wiring step tstates =
      ground (arith, step_plugins-shields x ps s (drop_one received) wiring step tstates)
  step_plugins-shields x (i8255 c ∷ ps) s received wiring step tstates =
      step_plugins-shields x ps s (drop_one received) wiring step tstates
  step_plugins-shields x (pit8254 c ∷ ps) s received wiring step tstates =
      step_plugins-shields x ps s (drop_one received) wiring step tstates
  step_plugins-shields x (mc6850 c ∷ ps) s received wiring step tstates =
      let t = (Acia.on_step c s (first_of received) wiring step).1 in
      ground (arith, step_plugins-shields x ps t (drop_one received) wiring step tstates)

  -- `io_runtime_on_step` changes neither a protected byte nor its protection.
  pub on_step-guarded :
      (x : ℕ) (net : Net) (wiring : Bool) (table : List PinHandle) (s : State (Runtime D))
      (received : List (List ℕ)) (step tstates : ℕ)
      → seen (guarded x) (on_step net wiring table s received step tstates).1 ≡ seen (guarded x) s
  unfolding on_step
  on_step-guarded x net wiring table s received step tstates =
      let (plugins, t) = step_plugins s.world.plugins s received wiring step tstates in
      let r = t.world in
      let u = record t { world = record r { plugins = plugins } } in
      let start = seen (guarded x) s in
      let kept : seen (guarded x) u ≡ start =
        ground (arith, step_plugins-shields x s.world.plugins s received wiring step tstates) in
      if_both (λ (e : Net × State (Runtime D)). seen (guarded x) e.1 ≡ start) wiring
        (Net.step (wires table) net u) (net, u)
        (step-keeps (wires table) (λ t. seen (guarded x) t ≡ start) (wires-guarded x start table)
          net u kept)
        kept
