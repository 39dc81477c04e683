-- ===== src/Prelude/Texts.antt =====
-- Texts as lists of bytes, and the calls of string.h on them.
use Prim.Native.Nat.{ℕ, zero, suc, ◌<◌}
use Prim.Native.Char.{code}
use Prim.Native.String.{String}
use mathlib.Core.Bool.{Bool, true, false, ◌&&◌, not}
use mathlib.Core.List.{List, [], ◌∷◌}
use mathlib.Core.Option.{Option, none, some}
use tool_i8085_trace.Prelude.Tests.{◌==◌, if◌then◌else◌}

abbrev pub codes : String → List ℕ
codes String.[] = []
codes (String.◌∷◌ c s) = code c ∷ codes s

unfoldable pub same_text : List ℕ → List ℕ → Bool
same_text [] [] = true
same_text [] (d ∷ ds) = false
same_text (c ∷ cs) [] = false
same_text (c ∷ cs) (d ∷ ds) = c == d && same_text cs ds

-- `text.compare(0, n, prefix) == 0` for a prefix of `n` characters.
unfoldable pub starts_with : List ℕ → List ℕ → Bool
starts_with [] text = true
starts_with (p ∷ ps) [] = false
starts_with (p ∷ ps) (c ∷ cs) = p == c && starts_with ps cs

-- What stands behind the character that `strchr` finds; a NUL ends a C string.
unfoldable pub after_char : ℕ → List ℕ → Option (List ℕ)
after_char ch [] = none
after_char ch (c ∷ cs) =
    let rest = after_char ch cs in if c == ch then some cs else if c == 0 then none else rest

abbrev pub drop : ℕ → List ℕ → List ℕ
drop zero cs = cs
drop (suc n) [] = []
drop (suc n) (c ∷ cs) = drop n cs

abbrev pub take : ℕ → List ℕ → List ℕ
take zero cs = []
take (suc n) [] = []
take (suc n) (c ∷ cs) = c ∷ take n cs

-- What stands before the first `ch`, or the whole text.
unfoldable pub before_char : ℕ → List ℕ → List ℕ
before_char ch [] = []
before_char ch (c ∷ cs) = let rest = before_char ch cs in if c == ch then [] else c ∷ rest

-- No character of the text is `ch`.
unfoldable pub lacks : ℕ → List ℕ → Bool
lacks ch [] = true
lacks ch (c ∷ cs) = not (c == ch) && lacks ch cs

abbrev pub AllBytes : List ℕ → Type 0
AllBytes [] = Unit {0}
AllBytes (b ∷ bs) = (b < 256) × AllBytes bs
