-- ===== src/Tests/RangeTests.antt =====
-- The texts of the disassembler and the ranges of the settings, at concrete inputs.
use tool_i8085_trace.Prelude.{
  ℕ, ◌≡◌, refl, true, Option, none, some, List, [], ◌∷◌, arith, ◌==◌, if◌then◌else◌, codes, strtoul,
  numeral, skip_prefix, take_sign, skip_spaces, is_space, digit_of, digit_value, digits_of,
  auto_base, before_char, after_char, starts_with,
}
use Prim.Native.Nat.{ℕ}
use tool_i8085_trace.Disasm.{opbytes}
use tool_i8085_trace.Disasm.Printing.{disassemble, print_case, disasm_printf}
use tool_i8085_trace.Disasm.Templates.{templates, text}
use tool_i8085_trace.Gdb.{hex_byte, hex_char}
use tool_i8085_trace.Disasm.Assembler.{assemble}
use tool_i8085_trace.Disasm.Assembler.Laws.{assemble-disassemble}
use tool_i8085_trace.Main.Trace.{extract_mnemonic, word_of}
use tool_i8085_trace.Main.Trace.Laws.{IsPlain, extract_mnemonic-IsPlain}
use tool_i8085_trace.Main.Arguments.{
  Settings, go_on, default_settings, apply_options, apply_option, value_option, parse_level,
}
use tool_i8085_trace.Main.Arguments.Ranges.{InRange as SettingsInRange}
use tool_i8085_trace.Main.Arguments.Accepted.{apply_options-InRange, default_settings-InRange}
use tool_i8085_trace.Main.Options.{parse_hex, parse_irq, parse_code}

-- IN 0x10, and LDA 0x1234 behind it.
abbrev program : ℕ → ℕ
program x =
    if x == 0x0100
    then 0xdb
    else if x == 0x0101
    then 0x10
    else if x == 0x0102
    then 0x3a
    else if x == 0x0103
    then 0x34
    else if x == 0x0104
    then 0x12
    else 0

lda_text : disassemble program 0x0102 80 ≡ (codes "LDA    $1234", 3)
unfolding disassemble print_case disasm_printf templates text hex_byte hex_char opbytes
lda_text = refl

cut_text : (disassemble program 0x0102 8).0 ≡ codes "LDA    "
unfolding disassemble print_case disasm_printf templates text hex_byte hex_char
cut_text = refl

assemble-disassemble_example :
    assemble (disassemble program 0x0102 80).0 ≡ some (0x3a ∷ 0x34 ∷ 0x12 ∷ [])
unfolding disassemble opbytes
assemble-disassemble_example =
    assemble-disassemble program 0x0102 80 (omega arith) (omega arith) (omega arith) (omega arith)

a_mnemonic : extract_mnemonic (disassemble program 0x0102 80).0 16 ≡ codes "LDA"
unfolding extract_mnemonic word_of skip_spaces is_space disassemble print_case disasm_printf
    templates text hex_byte hex_char
a_mnemonic = refl

extract_mnemonic-IsPlain_example :
    IsPlain (disassemble program 0x0102 80).0
    × IsPlain (extract_mnemonic (disassemble program 0x0102 80).0 16)
extract_mnemonic-IsPlain_example = extract_mnemonic-IsPlain program 0x0102 80 16

abbrev no_file : List ℕ → Option (List ℕ)
no_file path = none

abbrev options : List (ℕ × List ℕ)
options = (b'l', codes "0x2000") ∷ (b'i', codes "55@9") ∷ (b'y', codes "1") ∷ (b'q', []) ∷ []

abbrev chosen : Settings
chosen = record default_settings {
  load_addr = 0x2000;
  irqs = record { code = 55; at_step = 9 } ∷ [];
  sid_init = some 1;
  quiet = true;
}

accepted : apply_options no_file default_settings options ≡ go_on chosen
unfolding apply_options apply_option value_option parse_level parse_hex parse_irq parse_code strtoul
    numeral skip_prefix take_sign skip_spaces is_space digit_of digit_value digits_of auto_base
    before_char after_char starts_with
accepted = refl

apply_options-InRange_example : SettingsInRange chosen
apply_options-InRange_example =
    apply_options-InRange no_file options default_settings chosen default_settings-InRange accepted
