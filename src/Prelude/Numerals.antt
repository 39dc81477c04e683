-- ===== src/Prelude/Numerals.antt =====
-- strtol and strtoul of the C library, as far as the program uses them: white space, a sign, a
-- prefix 0x for base 16, and digits; the value and `*end`, which is the whole text where there is
-- no digit.
use Prim.Native.Nat.{ℕ, ◌+◌, ◌-◌, ◌*◌, ◌^◌, ◌%◌}
use mathlib.Core.Bool.{Bool, true, false, ◌&&◌, ◌||◌}
use mathlib.Core.List.{List, [], ◌∷◌}
use mathlib.Core.Option.{Option, none, some}
use tool_i8085_trace.Prelude.Texts.{codes, starts_with}
use tool_i8085_trace.Prelude.Tests.{ltb, leb, ◌==◌, if◌then◌else◌}

unfoldable pub is_space : ℕ → Bool
is_space c = c == 32 || leb 9 c && leb c 13

unfoldable pub digit_value : ℕ → Option ℕ
digit_value c =
    if leb b'0' c && leb c b'9'
    then some (c - b'0')
    else if leb b'a' c && leb c b'f'
    then some (c - b'a' + 10)
    else if leb b'A' c && leb c b'F'
    then some (c - b'A' + 10)
    else none

unfoldable pub digit_of : ℕ → ℕ → Option ℕ
digit_of base c = elim (digit_value c) [
  | none ↦ none
  | some d ↦ if ltb d base then some d else none
]

-- The digits at the front, with the value so far.
unfoldable pub digits_of : ℕ → ℕ → List ℕ → ℕ × List ℕ
digits_of base val [] = (val, [])
digits_of base val (c ∷ cs) = elim (digit_of base c) [
  | none ↦ (val, c ∷ cs)
  | some d ↦ digits_of base (val * base + d) cs
]

unfoldable pub skip_spaces : List ℕ → List ℕ
skip_spaces [] = []
skip_spaces (c ∷ cs) = let rest = skip_spaces cs in if is_space c then rest else c ∷ cs

-- Whether a minus sign stands in front, and what stands behind the sign.
unfoldable pub take_sign : List ℕ → Bool × List ℕ
take_sign [] = (false, [])
take_sign (c ∷ cs) =
    if c == b'-' then (true, cs) else if c == b'+' then (false, cs) else (false, c ∷ cs)

abbrev pub has_digit : ℕ → List ℕ → Bool
has_digit base [] = false
has_digit base (c ∷ cs) = elim (digit_of base c) [ none ↦ false | some d ↦ true ]

-- Behind the prefix, where a digit follows it.
unfoldable pub skip_prefix : ℕ → List ℕ → List ℕ
skip_prefix base (z ∷ x ∷ cs) =
    if base == 16 && z == b'0' && (x == b'x' || x == b'X') && has_digit 16 cs
    then cs
    else z ∷ x ∷ cs
skip_prefix base (z ∷ []) = z ∷ []
skip_prefix base [] = []

-- The sign, the number behind it and `*end`.
unfoldable pub numeral : ℕ → List ℕ → Bool × ℕ × List ℕ
numeral base text =
    let (minus, unsigned) = take_sign (skip_spaces text) in
    let body = skip_prefix base unsigned in
    if has_digit base body
    then (let (val, end) = digits_of base 0 body in (minus, val, end))
    else (false, 0, text)

-- `strtoul` and `strtoull`: the largest value where the number is out of range, and the negative
-- modulo 2 ^ 64 behind a minus sign.
unfoldable pub strtoul : ℕ → List ℕ → ℕ × List ℕ
strtoul base text =
    let (minus, val, end) = numeral base text in
    (if leb (2 ^ 64) val then 2 ^ 64 - 1 else if minus then (2 ^ 64 - val) % 2 ^ 64 else val, end)

-- The base of a number that `strtoul` is to tell by its prefix.
unfoldable pub auto_base : List ℕ → ℕ
auto_base text =
    let body = (take_sign (skip_spaces text)).1 in
    if starts_with (codes "0x") body || starts_with (codes "0X") body
    then 16
    else if starts_with (codes "0") body
    then 8
    else 10
