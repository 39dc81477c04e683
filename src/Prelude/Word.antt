-- ===== src/Prelude/Word.antt =====
-- The fixed-width integers of types.h: a value is a native number, a cast keeps its low bits.
use Prim.Native.Nat.{ℕ, ◌+◌, ◌-◌, ◌*◌, ◌%◌, ◌^◌, ◌<◌, bit_or}
use mathlib.Core.Path.{◌≡◌}
use tool_i8085_trace.Prelude.Bits.{or_high}

abbrev pub u8 : ℕ → ℕ
u8 n = n % 256

abbrev pub u16 : ℕ → ℕ
u16 n = n % 65536

abbrev pub u32 : ℕ → ℕ
u32 n = n % 2 ^ 32

abbrev pub u64 : ℕ → ℕ
u64 n = n % 2 ^ 64

-- `x - y` in the width at hand, for `y` within it: `-` on ℕ stops at 0, so the modulus goes first.
abbrev pub sub8 : ℕ → ℕ → ℕ
sub8 x y = (x + 256 - y) % 256

abbrev pub sub16 : ℕ → ℕ → ℕ
sub16 x y = (x + 65536 - y) % 65536

-- `(hi << 8) | lo`
unfoldable pub word : ℕ → ℕ → ℕ
word hi lo = bit_or (hi * 256) lo

pub word_lem : (hi lo : ℕ) → hi < 256 → lo < 256 → word hi lo ≡ hi * 256 + lo
unfolding word
word_lem hi lo h k = or_high 8 hi lo h k
