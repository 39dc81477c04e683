-- ===== src/Plugins/Memory.antt =====
-- plugins/memory.cpp: a ROM or a write-protected EEPROM, by a veto on memory writes.
use tool_i8085_trace.Prelude.{ℕ, ◌+◌, Bool, true, not, ◌&&◌, ltb, leb, if◌then◌else◌, u32}
use tool_i8085_trace.Plugins.Config.{cfg_value, parse_num}
use tool_i8085_trace.Plugins.Config.{truthy}
use tool_i8085_trace.Prelude.{List, Option, codes, same_text}
use tool_i8085_trace.Cpu.State.{State}

pub record Ctx : Type 0 where
  pub base : ℕ
  pub end : ℕ
  pub eeprom : Bool
  pub wren : Bool

-- What `i8085_io_plugin_init` makes of its settings; `end` is a 32-bit sum.
abbrev pub init : ℕ → ℕ → Bool → Bool → Ctx
init base size eeprom wren = record {
  base = u32 base;
  end = u32 (u32 base + u32 size);
  eeprom = eeprom;
  wren = wren;
}

-- `protectedNow`
abbrev pub protected_now : Ctx → Bool
protected_now c = if c.eeprom then not c.wren else true

-- The region with its protection on.
abbrev pub protects : Ctx → ℕ → Bool
protects c addr = leb c.base addr && ltb addr c.end && protected_now c

unfoldable pub on_mem_write : {W : Type 0} → Ctx → State W → ℕ → ℕ → ℕ
on_mem_write c state addr val =
    if leb c.base addr && ltb addr c.end
    then if protected_now c then state.memory addr else val
    else val

-- `i8085_io_plugin_init`
unfoldable pub io_plugin_init : Option (List ℕ) → Ctx
io_plugin_init config =
    init (parse_num (cfg_value config (codes "base")) 0)
      (parse_num (cfg_value config (codes "size")) 0x8000)
      (same_text (cfg_value config (codes "mode")) (codes "eeprom"))
      (truthy (cfg_value config (codes "wren")))
