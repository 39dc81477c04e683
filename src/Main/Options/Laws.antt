-- ===== src/Main/Options/Laws.antt =====
-- src/main.cpp: what the option parsers accept.
use tool_i8085_trace.Prelude.{before_char}
use tool_i8085_trace.Prelude.{skip_prefix}
use tool_i8085_trace.Prelude.{is_space}
use tool_i8085_trace.Prelude.{digit_value}
use tool_i8085_trace.Prelude.{take_sign}
use tool_i8085_trace.Main.Options.{to_lower}
use tool_i8085_trace.Prelude.{skip_spaces}
use tool_i8085_trace.Prelude.{digits_of}
use tool_i8085_trace.Prelude.{digit_of}
use tool_i8085_trace.Prelude.{
  ℕ, ◌+◌, ◌*◌, ◌/◌, ◌%◌, ◌^◌, ◌≤◌, ◌<◌, ◌≡◌, refl, ◌⊎◌, some, List, [], ◌∷◌, map, arith,
  if◌then◌else◌, strtoul, numeral, after_char,
}
use Prim.Native.Nat.{ℕ}
use tool_i8085_trace.Gdb.{hex_char, hex_byte}
use tool_i8085_trace.Gdb.Codec.{hex_word}
use tool_i8085_trace.Main.{PeriodicTimer}
use tool_i8085_trace.Main.Options.{
  has_hex_prefix, parse_hex, named_code, parse_code, parse_irq, parse_timer, parse_dump,
}

-- A code that `triggerInterrupt` knows.
abbrev pub IsCode : ℕ → Type 0
IsCode c = c ≤ 7 ⊎ c ≡ 45 ⊎ c ≡ 55 ⊎ c ≡ 65 ⊎ c ≡ 75

pub strtoul_small : (base : ℕ) (text : List ℕ) → (strtoul base text).0 < 2 ^ 64
unfolding strtoul
strtoul_small base text = ground arith

named_code-IsCode : (name : List ℕ) (c : ℕ) → named_code name ≡ some c → IsCode c
unfolding named_code
named_code-IsCode name c e = ground arith

pub parse_code-IsCode : (str : List ℕ) (c : ℕ) → parse_code str ≡ some c → IsCode c
unfolding parse_code
parse_code-IsCode str c e = ground (arith, named_code-IsCode (map to_lower str) c)

-- A timer that is accepted can run: its code is one of `triggerInterrupt`, its period is above 0 and
-- within 64 bits, and its first trigger is a period away.
pub parse_timer-IsCode :
    (str : List ℕ) (t : PeriodicTimer)
    → parse_timer str ≡ some t
    → IsCode t.code
      × (0 < t.period_cycles)
      × (t.period_cycles < 2 ^ 64)
      × (t.next_trigger_cycle ≡ t.period_cycles)
unfolding parse_timer
parse_timer-IsCode str t e = grind (arith, parse_code-IsCode, strtoul_small)

-- An interrupt without a code is accepted as RST 0: `@` and a number that is read whole.
pub parse_irq_empty :
    (rest : List ℕ)
    → (strtoul 10 rest).1 ≡ []
    → parse_irq (b'@' ∷ rest) ≡ some (record { code = 0; at_step = (strtoul 10 rest).0 })
unfolding parse_irq parse_code after_char before_char numeral skip_spaces take_sign skip_prefix
parse_irq_empty rest e = ground arith

-- A dump of 0x10000 bytes is accepted as one of none.
pub parse_dump_all :
    (str rest : List ℕ) (start : ℕ)
    → after_char b':' str ≡ some rest
    → parse_hex (before_char b':' str) ≡ some start
    → strtoul (if has_hex_prefix rest then 16 else 10) rest ≡ (0x10000, [])
    → parse_dump str ≡ some (record { start = start; length = 0 })
unfolding parse_dump
parse_dump_all str rest start e1 e2 e3 = ground arith

digit_of-hex_char : (d : ℕ) → d < 16 → digit_of 16 (hex_char d) ≡ some d
unfolding digit_of digit_value hex_char
digit_of-hex_char d h = ground arith

digits_of_step :
    (val d : ℕ) (cs : List ℕ)
    → d < 16
    → digits_of 16 val (hex_char d ∷ cs) ≡ digits_of 16 (val * 16 + d) cs
unfolding digits_of
digits_of_step val d cs h = ground (arith, digit_of-hex_char d h)

digits_of_none : (val : ℕ) → digits_of 16 val [] ≡ (val, [])
unfolding digits_of
digits_of_none val = refl

digits_of-hex_word : (n : ℕ) → n < 65536 → digits_of 16 0 (hex_word n) ≡ (n, [])
unfolding hex_byte
digits_of-hex_word n h =
    let d3 = n / 256 / 16 % 16 in
    let d2 = n / 256 % 16 in
    let d1 = n / 16 % 16 in
    let d0 = n % 16 in
    let v2 = (0 * 16 + d3) * 16 + d2 in
    let whole : (v2 * 16 + d1) * 16 + d0 ≡ n = omega arith in
    rw
      (
        digits_of_step 0 d3 (hex_char d2 ∷ hex_char d1 ∷ hex_char d0 ∷ []) (omega arith),
        digits_of_step (0 * 16 + d3) d2 (hex_char d1 ∷ hex_char d0 ∷ []) (omega arith),
        digits_of_step v2 d1 (hex_char d0 ∷ []) (omega arith),
        digits_of_step (v2 * 16 + d1) d0 [] (omega arith),
      )
      (rw whole (digits_of_none n))

-- A hexadecimal value is read as it is printed: `0x` and four digits give the number.
pub parse_hex-hex_word : (n : ℕ) → n < 65536 → parse_hex (b'0' ∷ b'x' ∷ hex_word n) ≡ some n
unfolding parse_hex strtoul numeral skip_spaces is_space take_sign skip_prefix hex_byte
parse_hex-hex_word n h =
    ground (arith, digits_of-hex_word n h, digit_of-hex_char (n / 256 / 16 % 16))

-- A hexadecimal value that is accepted fits its 16 bits.
pub parse_hex_bound : (str : List ℕ) (v : ℕ) → parse_hex str ≡ some v → v < 65536
unfolding parse_hex
parse_hex_bound str v e = ground arith
