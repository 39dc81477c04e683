-- ===== src/Runtime/Rom.antt =====
-- plugins/memory.cpp under src/io_runtime.cpp: the protected bytes, through the chain of
-- write hooks and the port hooks.
use tool_i8085_trace.Prelude.{
  ℕ, ◌%◌, ◌<◌, ◌≡◌, refl, ap, Bool, true, false, ◌&&◌, ◌||◌, List, [], ◌∷◌, map, arith,
  if◌then◌else◌,
}
use tool_i8085_trace.Cpu.State.{State, ExecutionStats}
use tool_i8085_trace.Cpu.Stack.{mem_wr}
use tool_i8085_trace.Cpu.Stack.Laws.{Allows}
use tool_i8085_trace.Cpu.Step.{emulate_op}
use tool_i8085_trace.Cpu.Frame.{Keeps, seen, emulate_op-Keeps}
use tool_i8085_trace.Plugins.Memory
use tool_i8085_trace.Plugins.Ppi
use tool_i8085_trace.Plugins.Pit
use tool_i8085_trace.Plugins.Acia
use tool_i8085_trace.Runtime.{
  Plugin, memory, i8255, pit8254, mc6850, DiskApi, Runtime, on_io_write, on_io_post_read, chain,
  pre_read_all, mem_write, io_write, io_pre_read, io_read, board,
}

-- Some slot protects the address.
abbrev pub shields : List Plugin → ℕ → Bool
shields [] x = false
shields (memory c ∷ ps) x = Memory.protects c x || shields ps x
shields (i8255 c ∷ ps) x = shields ps x
shields (pit8254 c ∷ ps) x = shields ps x
shields (mc6850 c ∷ ps) x = shields ps x

-- The same, with the flag that turns the chain on.
abbrev pub is_rom : {D : Type 0} → Runtime D → ℕ → Bool
is_rom r x = r.any_mem_write && shields r.plugins x

module _ {W : Type 0} (s : State W) (x : ℕ) where
  -- Once the value is the byte in memory, it stays that.
  chain_fixed : (ps : List Plugin) → chain ps s x (s.memory x) ≡ s.memory x
  unfolding chain Memory.on_mem_write
  chain_fixed [] = refl
  chain_fixed (memory c ∷ ps) = ground (arith, chain_fixed ps)
  chain_fixed (i8255 c ∷ ps) = chain_fixed ps
  chain_fixed (pit8254 c ∷ ps) = chain_fixed ps
  chain_fixed (mc6850 c ∷ ps) = chain_fixed ps

  chain_shielded : (ps : List Plugin) (v : ℕ) → shields ps x ≡ true → chain ps s x v ≡ s.memory x
  unfolding chain Memory.on_mem_write
  chain_shielded [] v h = ground arith
  chain_shielded (memory c ∷ ps) v h = ground (arith, chain_fixed ps, chain_shielded ps v)
  chain_shielded (i8255 c ∷ ps) v h = chain_shielded ps v h
  chain_shielded (pit8254 c ∷ ps) v h = chain_shielded ps v h
  chain_shielded (mc6850 c ∷ ps) v h = chain_shielded ps v h

chain_open :
    {W : Type 0} (s : State W) (x : ℕ) (ps : List Plugin) (v : ℕ)
    → shields ps x ≡ false
    → chain ps s x v ≡ v
unfolding chain Memory.on_mem_write
chain_open s x [] v h = refl
chain_open s x (memory c ∷ ps) v h = ground (arith, chain_open s x ps v)
chain_open s x (i8255 c ∷ ps) v h = chain_open s x ps v h
chain_open s x (pit8254 c ∷ ps) v h = chain_open s x ps v h
chain_open s x (mc6850 c ∷ ps) v h = chain_open s x ps v h

-- On the board every address that no memory plugin protects is open to writes.
pub board-Allows :
    {D : Type 0} (api : DiskApi D) (s : State (Runtime D)) (a : ℕ)
    → a < 65536
    → is_rom s.world a ≡ false
    → Allows (board api) s a
unfolding mem_write
board-Allows api s a fits bare m sp v byte =
    let t = record s { memory = m; sp = sp } in
    ap (λ x. (t, x)) (ground (arith, chain_open t a s.world.plugins v))

shields-on_io_write :
    (port value x : ℕ) (ps : List Plugin)
    → shields (map (on_io_write port value) ps) x ≡ shields ps x
shields-on_io_write port value x [] = refl
shields-on_io_write port value x (memory c ∷ ps) = rw (shields-on_io_write port value x ps)
shields-on_io_write port value x (i8255 c ∷ ps) = shields-on_io_write port value x ps
shields-on_io_write port value x (pit8254 c ∷ ps) = shields-on_io_write port value x ps
shields-on_io_write port value x (mc6850 c ∷ ps) = shields-on_io_write port value x ps

shields-on_io_post_read :
    (port x : ℕ) (ps : List Plugin) → shields (map (on_io_post_read port) ps) x ≡ shields ps x
shields-on_io_post_read port x [] = refl
shields-on_io_post_read port x (memory c ∷ ps) = rw (shields-on_io_post_read port x ps)
shields-on_io_post_read port x (i8255 c ∷ ps) = shields-on_io_post_read port x ps
shields-on_io_post_read port x (pit8254 c ∷ ps) = shields-on_io_post_read port x ps
shields-on_io_post_read port x (mc6850 c ∷ ps) = shields-on_io_post_read port x ps

-- The read before IN changes the port array alone.
ppi_pre_read :
    {W : Type 0} (c : Ppi.Ctx) (s : State W) (port : ℕ)
    → Ppi.on_io_pre_read c s port ≡ record s { io = (Ppi.on_io_pre_read c s port).io }
unfolding Ppi.on_io_pre_read
ppi_pre_read c s port = ground arith

pit_pre_read :
    {W : Type 0} (c : Pit.Ctx) (s : State W) (port : ℕ)
    → Pit.on_io_pre_read c s port ≡ record s { io = (Pit.on_io_pre_read c s port).io }
unfolding Pit.on_io_pre_read
pit_pre_read c s port = ground arith

acia_pre_read :
    {W : Type 0} (c : Acia.Ctx) (s : State W) (port : ℕ)
    → Acia.on_io_pre_read c s port ≡ record s { io = (Acia.on_io_pre_read c s port).io }
unfolding Acia.on_io_pre_read
acia_pre_read c s port = ground arith

pub pre_read_all_io :
    {W : Type 0} (ps : List Plugin) (s : State W) (port : ℕ)
    → pre_read_all ps s port ≡ record s { io = (pre_read_all ps s port).io }
unfolding pre_read_all
pre_read_all_io [] s port = refl
pre_read_all_io (memory c ∷ ps) s port = pre_read_all_io ps s port
pre_read_all_io (i8255 c ∷ ps) s port =
    ground (arith, pre_read_all_io ps (Ppi.on_io_pre_read c s port) port, ppi_pre_read c s port)
pre_read_all_io (pit8254 c ∷ ps) s port =
    ground (arith, pre_read_all_io ps (Pit.on_io_pre_read c s port) port, pit_pre_read c s port)
pre_read_all_io (mc6850 c ∷ ps) s port =
    ground (arith, pre_read_all_io ps (Acia.on_io_pre_read c s port) port, acia_pre_read c s port)

-- The byte, as far as it is protected.
abbrev pub guarded : {D : Type 0} → ℕ → (ℕ → ℕ) → Runtime D → Bool × ℕ
guarded x m r = (is_rom r x, if is_rom r x then m x else 0)

module _ {D : Type 0} (api : DiskApi D) (x : ℕ) where
  mem_wr-guarded :
      (s : State (Runtime D)) (a v : ℕ)
      → seen (guarded x) (mem_wr (board api) s a v) ≡ seen (guarded x) s
  unfolding mem_wr mem_write
  mem_wr-guarded s a v = ground (arith, chain_shielded s x s.world.plugins (v % 256))

  pre_read-guarded :
      (s : State (Runtime D)) (a : ℕ) → seen (guarded x) (io_pre_read api s a) ≡ seen (guarded x) s
  unfolding io_pre_read
  pre_read-guarded s a =
      let port = a % 256 in
      let disk_io = api.on_io_pre_read s.world.disk s.io port in
      ground (
        arith,
        pre_read_all_io s.world.plugins s port,
        pre_read_all_io s.world.plugins (record s { io = disk_io }) port,
      )

  pub board-Keeps : Keeps (board api) (guarded x)
  unfolding io_write io_pre_read io_read
  board-Keeps = record {
    on_mem_wr = mem_wr-guarded;
    on_io_write = λ s a v. rw (shields-on_io_write (a % 256) (v % 256) x s.world.plugins);
    on_io_pre_read = pre_read-guarded;
    on_io_read = λ s a v. rw (shields-on_io_post_read (a % 256) x s.world.plugins);
  }

-- With a memory plugin loaded that protects address `x`, no call of `Emulate8085Op` changes the byte
-- there, and the protection stays.
pub emulate_op-rom :
    {D : Type 0} (api : DiskApi D) (x : ℕ) (s : State (Runtime D)) (stats : ExecutionStats)
    → is_rom s.world x ≡ true
    → let t = (emulate_op (board api) s stats).state in
      (t.memory x ≡ s.memory x) × (is_rom t.world x ≡ true)
emulate_op-rom api x s stats rom =
    ground (arith, emulate_op-Keeps (board api) (guarded x) (board-Keeps api x) s stats)
