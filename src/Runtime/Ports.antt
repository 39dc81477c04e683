-- ===== src/Runtime/Ports.antt =====
-- src/io_runtime.cpp: which plugin answers an IN.
use tool_i8085_trace.Prelude.{
  ◌≡◌, refl, ◌∙◌, Bool, true, false, ◌||◌, none, some, List, [], ◌∷◌, ◌++◌, arith, ltb, ◌==◌,
}
use tool_i8085_trace.Prelude.{ℕ}
use tool_i8085_trace.Cpu.State.{State}
use tool_i8085_trace.Plugins.Ppi
use tool_i8085_trace.Plugins.Pit
use tool_i8085_trace.Plugins.Acia
use tool_i8085_trace.Runtime.{Plugin, memory, i8255, pit8254, mc6850, on_io_pre_read, pre_read_all}

-- The plugin puts a value of its own into the port array before an IN of the port.
abbrev pub answers : Plugin → ℕ → Bool
answers (memory c) port = false
answers (i8255 c) port = elim (Ppi.port_of c port) [ none ↦ false | some i ↦ true ]
answers (pit8254 c) port = elim (Pit.offset_of c port) [ none ↦ false | some i ↦ ltb i 3 ]
answers (mc6850 c) port = port == c.ctrl_port || port == c.data_port

abbrev pub any_answers : List Plugin → ℕ → Bool
any_answers [] port = false
any_answers (p ∷ ps) port = answers p port || any_answers ps port

module _ {W : Type 0} where
  silent :
      (p : Plugin) (s : State W) (port : ℕ) → answers p port ≡ false → on_io_pre_read p s port ≡ s
  unfolding Ppi.on_io_pre_read Pit.on_io_pre_read Acia.on_io_pre_read
  silent (memory c) s port h = refl
  silent (i8255 c) s port h = ground arith
  silent (pit8254 c) s port h = ground arith
  silent (mc6850 c) s port h = ground arith

  -- Where no plugin answers, the read before IN leaves the port as the last OUT left it.
  all_silent :
      (ps : List Plugin) (s : State W) (port : ℕ)
      → any_answers ps port ≡ false
      → pre_read_all ps s port ≡ s
  unfolding pre_read_all
  all_silent [] s port h = refl
  all_silent (p ∷ ps) s port h =
      ground (arith, silent p s port, all_silent ps (on_io_pre_read p s port) port)

  pre_read_all-++ :
      (ps qs : List Plugin) (s : State W) (port : ℕ)
      → pre_read_all (ps ++ qs) s port ≡ pre_read_all qs (pre_read_all ps s port) port
  unfolding pre_read_all
  pre_read_all-++ [] qs s port = refl
  pre_read_all-++ (p ∷ ps) qs s port = pre_read_all-++ ps qs (on_io_pre_read p s port) port

  -- Of the plugins that answer a port, the one that is loaded last has the last word: the plugins
  -- behind it that do not answer change nothing, and what those before it did is its input.
  pub last_answers :
      (ps qs : List Plugin) (p : Plugin) (s : State W) (port : ℕ)
      → any_answers qs port ≡ false
      → pre_read_all (ps ++ p ∷ qs) s port ≡ on_io_pre_read p (pre_read_all ps s port) port
  unfolding pre_read_all
  last_answers ps qs p s port h =
      pre_read_all-++ ps (p ∷ qs) s port
      ∙ all_silent qs (on_io_pre_read p (pre_read_all ps s port) port) port h
