-- ===== src/Main/Options.antt =====
-- src/main.cpp: the values of the options. A text is the bytes of an argument, without its NUL.
pub mod Laws
use tool_i8085_trace.Prelude.{before_char}
use tool_i8085_trace.Prelude.{
  ℕ, ◌+◌, Bool, true, false, not, ◌&&◌, ◌||◌, Option, none, some, List, [], ◌∷◌, map, ltb, leb,
  ◌==◌, ◌!=◌, if◌then◌else◌, u16, strtoul, numeral, codes, same_text, after_char,
}
use tool_i8085_trace.Main.{ScheduledIrq, PeriodicTimer}

pub record MemoryDump : Type 0 where
  pub start : ℕ
  pub length : ℕ

pub record IoInit : Type 0 where
  pub port : ℕ
  pub value : ℕ

abbrev pub at_end : List ℕ → Bool
at_end [] = true
at_end (c ∷ cs) = false

abbrev pub has_hex_prefix : List ℕ → Bool
has_hex_prefix [] = false
has_hex_prefix (z ∷ []) = false
has_hex_prefix (z ∷ x ∷ cs) = z == b'0' && (x == b'x' || x == b'X')

-- `ParseHex`
unfoldable pub parse_hex : List ℕ → Option ℕ
parse_hex str =
    if not (has_hex_prefix str)
    then none
    else (let (v, end) = strtoul 16 str in
        if not (at_end end) || ltb 0xffff v then none else some (u16 v))

unfoldable pub to_lower : ℕ → ℕ
to_lower c = if leb b'A' c && leb c b'Z' then c + 32 else c

-- The names of the interrupts.
unfoldable pub named_code : List ℕ → Option ℕ
named_code name =
    if same_text name (codes "trap")
      || same_text name (codes "rst4.5")
      || same_text name (codes "4.5")
    then some 45
    else if same_text name (codes "rst5.5")
        || same_text name (codes "5.5")
        || same_text name (codes "r5.5")
    then some 55
    else if same_text name (codes "rst6.5")
        || same_text name (codes "6.5")
        || same_text name (codes "r6.5")
    then some 65
    else if same_text name (codes "rst7.5")
        || same_text name (codes "7.5")
        || same_text name (codes "r7.5")
    then some 75
    else none

-- The code of an interrupt, which `ParseIRQ` and `ParseTimer` read alike. A number is refused below
-- 0, where C compares the signed value.
unfoldable pub parse_code : List ℕ → Option ℕ
parse_code str =
    let (minus, numeric, end) = numeral 10 str in
    if at_end end
    then (if minus && numeric != 0
        then none
        else if leb numeric 7 || numeric == 45 || numeric == 55 || numeric == 65 || numeric == 75
        then some numeric
        else none)
    else named_code (map to_lower str)

-- `ParseIRQ`
unfoldable pub parse_irq : List ℕ → Option ScheduledIrq
parse_irq str = elim (after_char b'@' str) [
  | none ↦ none
  | some rest ↦ elim (parse_code (before_char b'@' str)) [
    | none ↦ none
    | some code ↦
        let (step, end) = strtoul 10 rest in
        if at_end end then some (record { code = code; at_step = step }) else none
  ]
]

-- `ParseTimer`
unfoldable pub parse_timer : List ℕ → Option PeriodicTimer
parse_timer str = elim (after_char b':' str) [
  | none ↦ none
  | some rest ↦ elim (parse_code (before_char b':' str)) [
    | none ↦ none
    | some code ↦
        let (period, end) = strtoul 10 rest in
        if not (at_end end) || period == 0
        then none
        else some (record { code = code; period_cycles = period; next_trigger_cycle = period })
  ]
]

-- `ParseDump`
unfoldable pub parse_dump : List ℕ → Option MemoryDump
parse_dump str = elim (after_char b':' str) [
  | none ↦ none
  | some rest ↦ elim (parse_hex (before_char b':' str)) [
    | none ↦ none
    | some start ↦
        let (length, end) = strtoul (if has_hex_prefix rest then 16 else 10) rest in
        if not (at_end end) || length == 0 || ltb 0x10000 length
        then none
        else some (record { start = start; length = u16 length })
  ]
]

-- `ParseIOInit`
unfoldable pub parse_io_init : List ℕ → Option IoInit
parse_io_init str = elim (after_char b':' str) [
  | none ↦ none
  | some rest ↦ elim (parse_hex (before_char b':' str)) [
    | none ↦ none
    | some port ↦ if ltb 0xff port then none else (elim (parse_hex rest) [
      | none ↦ none
      | some value ↦ if ltb 0xff value then none else some (record { port = port; value = value })
    ])
  ]
]
