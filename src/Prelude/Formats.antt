-- ===== src/Prelude/Formats.antt =====
-- The conversions of printf that the program uses: %02X and %04X of a value that has no more digits,
-- and %llu.
use Prim.Native.Nat.{ℕ, zero, suc, ◌+◌, ◌-◌, ◌/◌, ◌%◌}
use mathlib.Core.List.{List, [], ◌∷◌, ◌++◌}
use tool_i8085_trace.Prelude.Tests.{ltb, ◌==◌, if◌then◌else◌}

unfoldable pub upper_digit : ℕ → ℕ
upper_digit d = if ltb d 10 then b'0' + d else b'A' + (d - 10)

unfoldable pub hex_02 : ℕ → List ℕ
hex_02 n = upper_digit (n / 16 % 16) ∷ upper_digit (n % 16) ∷ []

unfoldable pub hex_04 : ℕ → List ℕ
hex_04 n = hex_02 (n / 256) ++ hex_02 (n % 256)

-- The digits of `n` in front of `acc`, at most `more` of them.
unfoldable pub decimal_from : ℕ → ℕ → List ℕ → List ℕ
decimal_from zero n acc = acc
decimal_from (suc more) n acc =
    let digits = (b'0' + n % 10) ∷ acc in
    let rest = decimal_from more (n / 10) digits in if n / 10 == 0 then digits else rest

-- A 64-bit number has at most twenty digits.
unfoldable pub decimal : ℕ → List ℕ
decimal n = decimal_from 20 n []
