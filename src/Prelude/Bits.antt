-- ===== src/Prelude/Bits.antt =====
-- `&`, `|` and `^` at variables, one binary digit at a time: the libraries give each operation
-- as a recursion on digits with fuel, and the steps below drop the fuel.
use Prim.Native.Nat.{ℕ, zero, suc, ◌+◌, ◌*◌, ◌/◌, ◌%◌, ◌^◌, ◌≤◌, ◌<◌, min, max, digits, differ}
use Prim.Native.Nat.{bit_and, bit_or, bit_xor, bit_and-bitwise, bit_or-bitwise, bit_xor-bitwise}
use mathlib.Core.Path.{◌≡◌, refl, ap}
use mathlib.Core.Bool.{Bool, true, ◌&&◌}
use native.Mathlib.Nat.{le_refl, pow-suc, div-div-eq-div-mul, mul_comm, mul_assoc}
use native.Mathlib.Omega.{arith}
use tool_i8085_trace.Prelude.Tests.{◌==◌, ==_iff}

-- With fuel for every digit, how much there is does not matter.
module _ (z : ℕ → ℕ) (f : ℕ → ℕ → ℕ) where
  enough : (n m a b : ℕ) → a ≤ n → a ≤ m → digits z f n a b ≡ digits z f m a b
  enough zero zero zero b p q = refl
  enough zero (suc m) zero b p q = refl
  enough (suc n) zero zero b p q = refl
  enough (suc n) (suc m) zero b p q = refl
  enough zero m (suc a) b p q = elim p [ ]
  enough (suc n) zero (suc a) b p q = elim q [ ]
  enough (suc n) (suc m) (suc a) b p q =
      ap (λ (t : ℕ). t * 2 + f (suc a % 2) (b % 2))
        (enough n m (suc a / 2) (b / 2) (omega arith) (omega arith))

  enough_half :
      (a b : ℕ)
      → digits z f (suc a) (suc a) b
        ≡ digits z f (suc a / 2) (suc a / 2) (b / 2) * 2 + f (suc a % 2) (b % 2)
  enough_half a b =
      ap (λ (t : ℕ). t * 2 + f (suc a % 2) (b % 2))
        (enough a (suc a / 2) (suc a / 2) (b / 2) (omega arith) (le_refl _))

differ_digits : (x y : ℕ) → x < 2 → y < 2 → differ x y ≡ (x + y) % 2
differ_digits zero y p q = omega arith
differ_digits (suc x) zero p q = omega arith
differ_digits (suc zero) (suc zero) p q = refl
differ_digits (suc zero) (suc (suc y)) p q = absurd (omega arith)
differ_digits (suc (suc x)) (suc y) p q = absurd (omega arith)

pub and_step : (a b : ℕ) → bit_and a b ≡ bit_and (a / 2) (b / 2) * 2 + min (a % 2) (b % 2)
and_step zero b = simp bit_and-bitwise (omega arith)
and_step (suc a) b = simp bit_and-bitwise (enough_half (λ _. 0) min a b)

pub or_step : (a b : ℕ) → bit_or a b ≡ bit_or (a / 2) (b / 2) * 2 + max (a % 2) (b % 2)
or_step zero b = simp bit_or-bitwise (omega arith)
or_step (suc a) b = simp bit_or-bitwise (enough_half (λ y. y) max a b)

xor_differ : (a b : ℕ) → bit_xor a b ≡ bit_xor (a / 2) (b / 2) * 2 + differ (a % 2) (b % 2)
xor_differ zero b = simp bit_xor-bitwise (omega arith)
xor_differ (suc a) b = simp bit_xor-bitwise (enough_half (λ y. y) differ a b)

pub xor_step : (a b : ℕ) → bit_xor a b ≡ bit_xor (a / 2) (b / 2) * 2 + (a + b) % 2
xor_step a b =
    omega (arith, xor_differ a b, differ_digits (a % 2) (b % 2) (omega arith) (omega arith))

pub or-zero : (k a : ℕ) → a < 2 ^ k → bit_or a 0 ≡ a
or-zero zero zero h = refl
or-zero zero (suc a) h = absurd (omega arith)
or-zero (suc k) a h = omega (arith, or_step a 0, or-zero k (a / 2) (omega (arith, pow-suc 2 k)))

-- `(q << 8) | r` is a sum when `r` is a byte, and so is any `|` of fields that do not overlap.
pub or_high : (k q r : ℕ) → q < 2 ^ 8 → r < 2 ^ k → bit_or (q * 2 ^ k) r ≡ q * 2 ^ k + r
or_high zero q r p h = ground (arith, or-zero 8 q p)
or_high (suc k) q r p h = ground (
  arith,
  or_step (q * 2 ^ suc k) r,
  pow-suc 2 k,
  ap (λ (t : ℕ). q * t) (pow-suc 2 k),
  or_high k q (r / 2) p,
)

-- A predicate over a small range, checked at every value.
unfoldable pub all_below : ℕ → (ℕ → Bool) → Bool
all_below zero p = true
all_below (suc n) p = p n && all_below n p

pub all_below_sound : (n : ℕ) (p : ℕ → Bool) (x : ℕ) → all_below n p ≡ true → x < n → p x ≡ true
unfolding all_below
all_below_sound zero p x h lt = elim lt [ ]
all_below_sound (suc n) p x h lt = ground (arith, all_below_sound n p x)

pub table : (n : ℕ) (f g : ℕ → ℕ) (x : ℕ) → all_below n (λ y. f y == g y) ≡ true → x < n → f x ≡ g x
table n f g x h lt = (==_iff (f x) (g x)).0 (all_below_sound n (λ y. f y == g y) x h lt)

-- The top bit of a byte, by seven halvings.
abbrev halved : ℕ → ℕ
halved a = a / 2 / 2 / 2 / 2 / 2 / 2 / 2

halved_lem : (a : ℕ) → a / 128 ≡ halved a
halved_lem a = omega arith

pub xor_half : (a b : ℕ) → bit_xor a b / 2 ≡ bit_xor (a / 2) (b / 2)
xor_half a b = omega (arith, xor_step a b)

and_half : (a b : ℕ) → bit_and a b / 2 ≡ bit_and (a / 2) (b / 2)
and_half a b = omega (arith, and_step a b)

pub xor_top : (a b : ℕ) → bit_xor a b / 128 ≡ bit_xor (a / 128) (b / 128)
xor_top a b = rw (halved_lem (bit_xor a b), halved_lem a, halved_lem b) (simp (xor_half))

pub and_top : (a b : ℕ) → bit_and a b / 128 ≡ bit_and (a / 128) (b / 128)
and_top a b = rw (halved_lem (bit_and a b), halved_lem a, halved_lem b) (simp (and_half))

and-zero : (n a : ℕ) → a ≤ n → bit_and a 0 ≡ 0
and-zero n zero h = refl
and-zero zero (suc a) h = elim h [ ]
and-zero (suc n) (suc a) h = omega (arith, and_step (suc a) 0, and-zero n (suc a / 2) (omega arith))

and-one : (a : ℕ) → bit_and a 1 ≡ a % 2
and-one a = omega (arith, and_step a 1, and-zero (a / 2) (a / 2) (le_refl _))

and_double : (a b : ℕ) → bit_and a (b * 2) ≡ bit_and (a / 2) b * 2
and_double a b = let e : b * 2 / 2 ≡ b = omega arith in rw (and_step a (b * 2), e) (omega arith)

-- A mask of one bit.
pub and_bit : (k a : ℕ) → bit_and a (2 ^ k) ≡ a / 2 ^ k % 2 * 2 ^ k
and_bit zero a = omega (arith, and-one a)
and_bit (suc k) a =
    let halve : a / 2 / 2 ^ k ≡ a / (2 * 2 ^ k) = div-div-eq-div-mul a 2 (2 ^ k) in
    let twice : 2 ^ suc k ≡ 2 ^ k * 2 = omega (arith, pow-suc 2 k) in
    rw (twice, and_double a (2 ^ k), and_bit k (a / 2), halve, mul_comm 2 (2 ^ k))
      (mul_assoc _ (2 ^ k) 2)

pub xor-lt : (k a b : ℕ) → a < 2 ^ k → b < 2 ^ k → bit_xor a b < 2 ^ k
xor-lt zero zero zero p q = omega arith
xor-lt zero (suc a) b p q = absurd (omega arith)
xor-lt zero zero (suc b) p q = absurd (omega arith)
xor-lt (suc k) a b p q =
    let two : 2 ^ suc k ≡ 2 ^ k * 2 = pow-suc 2 k in
    omega (arith, xor_step a b, xor-lt k (a / 2) (b / 2) (omega arith) (omega arith))

-- The lowest bit beside a number that is shifted by one place.
pub or_unit : (x b : ℕ) → x < 2 ^ 32 → b < 2 → bit_or (x * 2) b ≡ x * 2 + b
or_unit x b hx hb =
    let none : b / 2 ≡ 0 = omega arith in
    let half : x * 2 / 2 ≡ x = omega arith in
    rw (or_step (x * 2) b, none, half, or-zero 32 x hx) (omega arith)

pub or_comm : (k a b : ℕ) → a < 2 ^ k → b < 2 ^ k → bit_or a b ≡ bit_or b a
or_comm zero zero zero p q = refl
or_comm zero (suc a) b p q = absurd (omega arith)
or_comm zero zero (suc b) p q = absurd (omega arith)
or_comm (suc k) a b p q =
    let two : 2 ^ suc k ≡ 2 ^ k * 2 = pow-suc 2 k in
    omega (arith, or_step a b, or_step b a, or_comm k (a / 2) (b / 2) (omega arith) (omega arith))

pub xor_digits : (x y : ℕ) → x < 2 → y < 2 → bit_xor x y ≡ (x + y) % 2
xor_digits zero zero p q = refl
xor_digits zero (suc zero) p q = refl
xor_digits zero (suc (suc y)) p q = absurd (omega arith)
xor_digits (suc zero) zero p q = refl
xor_digits (suc zero) (suc zero) p q = refl
xor_digits (suc zero) (suc (suc y)) p q = absurd (omega arith)
xor_digits (suc (suc x)) y p q = absurd (omega arith)

-- The digits of a result, place by place.
div_pow_suc : (a j : ℕ) → a / 2 ^ suc j ≡ a / 2 / 2 ^ j
div_pow_suc a j =
    let twice : 2 ^ suc j ≡ 2 * 2 ^ j = omega (arith, pow-suc 2 j) in
    rw (twice, div-div-eq-div-mul a 2 (2 ^ j)) refl

or_half : (a b : ℕ) → bit_or a b / 2 ≡ bit_or (a / 2) (b / 2)
or_half a b = omega (arith, or_step a b)

pub or_digit : (j a b : ℕ) → bit_or a b / 2 ^ j % 2 ≡ max (a / 2 ^ j % 2) (b / 2 ^ j % 2)
or_digit zero a b = omega (arith, or_step a b)
or_digit (suc j) a b =
    rw (div_pow_suc (bit_or a b) j, div_pow_suc a j, div_pow_suc b j, or_half a b)
      (or_digit j (a / 2) (b / 2))

pub and_digit : (j a b : ℕ) → bit_and a b / 2 ^ j % 2 ≡ min (a / 2 ^ j % 2) (b / 2 ^ j % 2)
and_digit zero a b = omega (arith, and_step a b)
and_digit (suc j) a b =
    rw (div_pow_suc (bit_and a b) j, div_pow_suc a j, div_pow_suc b j, and_half a b)
      (and_digit j (a / 2) (b / 2))
