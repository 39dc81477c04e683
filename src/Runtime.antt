-- ===== src/Runtime.antt =====
-- src/io_runtime.cpp: the loaded plugins, and the hooks that fan out to them in load order. A slot
-- is a constructor for each plugin of the repository that takes part; a callback that a plugin
-- leaves NULL is a case that changes nothing. The runtime's `state` is the CPU that calls it. The
-- disk emulator is an argument: it sees memory and ports. Tracing is not modelled.
pub mod Rom
pub mod Pc
pub mod Ports
pub mod Wiring
use tool_i8085_trace.Prelude.{
  ℕ, ◌+◌, Bool, true, false, not, List, [], ◌∷◌, ◌++◌, map, if◌then◌else◌, u8, u16,
}
use tool_i8085_trace.Cpu.State.{State, Bus}
use tool_i8085_trace.Plugins.Memory
use tool_i8085_trace.Plugins.Ppi
use tool_i8085_trace.Plugins.Pit
use tool_i8085_trace.Plugins.Acia

pub data Plugin : Type 0 where
  memory : Memory.Ctx → Plugin
  i8255 : Ppi.Ctx → Plugin
  pit8254 : Pit.Ctx → Plugin
  mc6850 : Acia.Ctx → Plugin

-- The calls of disk_emu.h: whether it is active, OUT and the read before IN.
pub record DiskApi (D : Type 0) : Type 0 where
  pub active : D → Bool
  pub on_io_write : D → (ℕ → ℕ) → ℕ → ℕ → D
  pub on_io_pre_read : D → (ℕ → ℕ) → ℕ → ℕ → ℕ

-- IORuntimeState, and the disk emulator's own.
pub record Runtime (D : Type 0) : Type 0 where
  pub plugins : List Plugin
  pub any_mem_write : Bool
  pub disk : D

-- The callbacks of one slot.
abbrev pub has_mem_write : Plugin → Bool
has_mem_write (memory c) = true
has_mem_write _ = false

module _ {W : Type 0} where
  abbrev pub on_mem_write : Plugin → State W → ℕ → ℕ → ℕ
  on_mem_write (memory c) state addr val = Memory.on_mem_write c state addr val
  on_mem_write _ state addr val = val

  abbrev pub on_io_pre_read : Plugin → State W → ℕ → State W
  on_io_pre_read (memory c) state port = state
  on_io_pre_read (i8255 c) state port = Ppi.on_io_pre_read c state port
  on_io_pre_read (pit8254 c) state port = Pit.on_io_pre_read c state port
  on_io_pre_read (mc6850 c) state port = Acia.on_io_pre_read c state port

  -- The value is chained through every slot.
  unfoldable pub chain : List Plugin → State W → ℕ → ℕ → ℕ
  chain [] state addr val = val
  chain (p ∷ ps) state addr val = chain ps state addr (on_mem_write p state addr val)

  unfoldable pub pre_read_all : List Plugin → State W → ℕ → State W
  pre_read_all [] state port = state
  pre_read_all (p ∷ ps) state port = pre_read_all ps (on_io_pre_read p state port) port

abbrev pub on_io_write : ℕ → ℕ → Plugin → Plugin
on_io_write port value (memory c) = memory c
on_io_write port value (i8255 c) = i8255 (Ppi.on_io_write c port value)
on_io_write port value (pit8254 c) = pit8254 (Pit.on_io_write c port value)
on_io_write port value (mc6850 c) = mc6850 (Acia.on_io_write c port value)

abbrev pub on_io_post_read : ℕ → Plugin → Plugin
on_io_post_read port (memory c) = memory c
on_io_post_read port (i8255 c) = i8255 c
on_io_post_read port (pit8254 c) = pit8254 (Pit.on_io_post_read c port)
on_io_post_read port (mc6850 c) = mc6850 (Acia.on_io_post_read c port)

abbrev pub on_reset : Plugin → Plugin
on_reset (memory c) = memory c
on_reset (i8255 c) = i8255 (Ppi.on_reset c)
on_reset (pit8254 c) = pit8254 (Pit.on_reset c)
on_reset (mc6850 c) = mc6850 (Acia.on_reset c)

module _ {D : Type 0} where
  -- The end of `io_runtime_load_plugin`, for a plugin whose init succeeds.
  unfoldable pub load_plugin : Runtime D → Plugin → Runtime D
  load_plugin r p = record r {
    plugins = r.plugins ++ p ∷ [];
    any_mem_write = if has_mem_write p then true else r.any_mem_write;
  }

  unfoldable pub unload_plugin : Runtime D → Runtime D
  unload_plugin r = record r { plugins = []; any_mem_write = false }

  unfoldable pub reset_all : Runtime D → Runtime D
  reset_all r = record r { plugins = map on_reset r.plugins }

  -- `io_runtime_mem_write`
  unfoldable pub mem_write : State (Runtime D) → ℕ → ℕ → ℕ
  mem_write s addr val =
      if not s.world.any_mem_write then u8 val else chain s.world.plugins s (u16 addr) (u8 val)

  module _ (api : DiskApi D) where
    unfoldable pub io_write : State (Runtime D) → ℕ → ℕ → State (Runtime D)
    io_write s address value =
        let port = u8 address in
        let val = u8 value in
        let r = s.world in
        record s {
          world = record r {
            disk = if api.active r.disk then api.on_io_write r.disk s.memory port val else r.disk;
            plugins = map (on_io_write port val) r.plugins;
          };
        }

    unfoldable pub io_pre_read : State (Runtime D) → ℕ → State (Runtime D)
    io_pre_read s address =
        let port = u8 address in
        let disk = s.world.disk in
        pre_read_all s.world.plugins
          (if api.active disk then record s { io = api.on_io_pre_read disk s.io port } else s) port

    unfoldable pub io_read : State (Runtime D) → ℕ → ℕ → State (Runtime D)
    io_read s address value =
        let r = s.world in
        record s { world = record r { plugins = map (on_io_post_read (u8 address)) r.plugins } }

    -- The hooks that the core is linked with.
    abbrev pub board : Bus (Runtime D)
    board = record {
      mem_write = λ s addr val. (s, mem_write s addr val);
      io_write = io_write;
      io_pre_read = io_pre_read;
      io_read = io_read;
    }
