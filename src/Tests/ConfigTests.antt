-- ===== src/Tests/ConfigTests.antt =====
-- plugins/: the settings, on the texts of a board.
use tool_i8085_trace.Prelude.{
  ℕ, ◌≡◌, refl, true, false, Option, none, some, List, [], ◌∷◌, codes, same_text, starts_with,
  strtoul, numeral, skip_prefix, take_sign, skip_spaces, is_space, digit_of, digit_value, digits_of,
  auto_base,
}
use tool_i8085_trace.Plugins.Config.{tokens, first_value, cfg_value, parse_num, truthy}
use tool_i8085_trace.Prelude.{lacks}
use tool_i8085_trace.Plugins.Config.Laws.{Setting, text_of, lookup, cfg_value-lookup}
use tool_i8085_trace.Plugins.Memory
use tool_i8085_trace.Plugins.Ppi
use tool_i8085_trace.Plugins.Pit
use tool_i8085_trace.Plugins.Acia.Config as AciaConfig

abbrev timer_text : List ℕ
timer_text = codes "base=0x60;clkdiv=010;gate=5"

a_timer :
    ((Pit.io_plugin_init (some timer_text)).base ≡ 0x60)
    × ((Pit.io_plugin_init (some timer_text)).clkdiv ≡ 8)
    × ((Pit.io_plugin_init (some timer_text)).gate_mask ≡ 5)
    × ((Pit.io_plugin_init none).base ≡ 0x40)
    × ((Pit.io_plugin_init (some (codes "clkdiv=0"))).clkdiv ≡ 1)
unfolding Pit.io_plugin_init cfg_value parse_num first_value tokens starts_with strtoul numeral
    skip_prefix take_sign skip_spaces is_space digit_of digit_value digits_of auto_base
a_timer = (refl, refl, refl, refl, refl)

a_rom :
    ◌≡◌ {A = Memory.Ctx}
      (Memory.io_plugin_init (some (codes "mode=eeprom;size=0x2000;")))
      (Memory.init 0 0x2000 true false)
unfolding Memory.io_plugin_init cfg_value parse_num first_value tokens starts_with strtoul numeral
    skip_prefix take_sign skip_spaces is_space digit_of digit_value digits_of auto_base same_text
    truthy
a_rom = refl

a_ppi :
    ((Ppi.io_plugin_init (some (codes "ctrl=0x80;pa=0x1FF"))).a_in ≡ false)
    × ((Ppi.io_plugin_init (some (codes "ctrl=0x80;pa=0x1FF"))).in_a ≡ 0xff)
unfolding Ppi.io_plugin_init Ppi.strapped Ppi.write_control Ppi.mode_set cfg_value parse_num
    first_value tokens starts_with strtoul numeral skip_prefix take_sign skip_spaces is_space
    digit_of digit_value digits_of auto_base
a_ppi = (refl, refl)

abbrev no_file : List ℕ → Option (List ℕ)
no_file name = none

a_script : AciaConfig.parse_hex_bytes (codes "41 0x42,4") ≡ 0x41 ∷ 0x04 ∷ 0x24 ∷ []
unfolding AciaConfig.parse_hex_bytes AciaConfig.hex_digits AciaConfig.pairs digit_of digit_value
a_script = refl

a_missing_file : AciaConfig.io_plugin_init no_file (some (codes "rxfile=a")) ≡ none
unfolding AciaConfig.io_plugin_init AciaConfig.script cfg_value first_value tokens starts_with
a_missing_file = refl

two_terminals :
    AciaConfig.channels_of (some (codes "window=on;tcp=99;txlog=-"))
    ≡ codes "stdout" ∷ codes "window=99" ∷ []
unfolding AciaConfig.channels_of AciaConfig.terminal truthy same_text cfg_value first_value tokens
    starts_with
two_terminals = refl

abbrev settings : List Setting
settings =
    record { key = codes "base"; value = codes "0x60" }
    ∷ record { key = codes "clkdiv"; value = codes "8" }
    ∷ record { key = codes "clkdiv"; value = codes "9" }
    ∷ []

no_semicolon : text_of false settings ≡ codes "base=0x60;clkdiv=8;clkdiv=9"
no_semicolon = refl

cfg_value-lookup_example : cfg_value (some (text_of false settings)) (codes "clkdiv") ≡ codes "8"
unfolding lacks lookup same_text
cfg_value-lookup_example =
    cfg_value-lookup false settings (codes "clkdiv") (refl, refl, (refl, refl, (refl, refl, tt)))
      refl
