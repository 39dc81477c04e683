-- ===== src/Cpu/Alu/Laws.antt =====
-- src/i8085_exec.c: what the byte adders compute, and the parity of a byte.
use tool_i8085_trace.Prelude.{
  ℕ, zero, suc, ◌-◌, ◌+◌, ◌*◌, ◌/◌, ◌%◌, ◌<◌, ◌≡◌, refl, ◌↔◌, bit_xor, arith,
}
use tool_i8085_trace.Prelude.{agree, false, ◌==◌, leb, ltb, bit}
use tool_i8085_trace.Prelude.Bits.{xor_half, xor_step, xor-lt}
use tool_i8085_trace.Cpu.State.{State}
use tool_i8085_trace.Cpu.Alu.{
  update_carry, arith_flags_a, add_byte, add_byte_with_carry, subtract_byte,
  subtract_byte_with_borrow, parity, count_ones,
}
use tool_i8085_trace.Cpu.Alu.Overflow.{sum_overflow, difference_overflow, is_negative_lem}

-- The two's complement value of a byte, plus 128.
abbrev pub biased : ℕ → ℕ
biased x = (x + 128) % 256

-- What a sum leaves: `c` is the carry in.
abbrev pub IsSum : {W : Type 0} → (lhs rhs c : ℕ) → State W × ℕ → Type 0
IsSum lhs rhs c (t, r) =
    (r + 256 * bit t.cc.cy ≡ lhs + rhs + c)
    × ((t.cc.v ≡ false) ↔ (biased r + 128 ≡ biased lhs + biased rhs + c))
    × (t.cc.z ≡ (r == 0))
    × (t.cc.s ≡ leb 128 r)
    × (t.cc.ac ≡ ltb 15 (lhs % 16 + rhs % 16 + c))

-- What a difference leaves: `c` is the borrow in, and the carry flag the borrow out.
abbrev pub IsDifference : {W : Type 0} → (lhs rhs c : ℕ) → State W × ℕ → Type 0
IsDifference lhs rhs c (t, r) =
    (r + rhs + c ≡ lhs + 256 * bit t.cc.cy)
    × ((t.cc.v ≡ false) ↔ (biased r + biased rhs + c ≡ biased lhs + 128))
    × (t.cc.z ≡ (r == 0))
    × (t.cc.s ≡ leb 128 r)
    × (t.cc.ac ≡ ltb (lhs % 16) (rhs % 16 + c))

count_ones_from : (n x p : ℕ) → count_ones n x p ≡ p + count_ones n x 0
unfolding count_ones
count_ones_from zero x p = omega arith
count_ones_from (suc n) x p = ground (
  arith,
  count_ones_from n (x / 2) (p + 1),
  count_ones_from n (x / 2) p,
  count_ones_from n (x / 2) 1,
)

count_ones_step : (n x : ℕ) → count_ones (suc n) x 0 ≡ x % 2 + count_ones n (x / 2) 0
unfolding count_ones
count_ones_step n x = ground (arith, count_ones_from n (x / 2) 1)

nothing_counted : (a b c : ℕ) → count_ones 0 a 0 % 2 ≡ (count_ones 0 b 0 + count_ones 0 c 0) % 2
unfolding count_ones
nothing_counted a b c = refl

count_ones_xor :
    (n a b : ℕ) → count_ones n (bit_xor a b) 0 % 2 ≡ (count_ones n a 0 + count_ones n b 0) % 2
count_ones_xor zero a b = nothing_counted (bit_xor a b) a b
count_ones_xor (suc n) a b =
    rw (count_ones_step n (bit_xor a b), count_ones_step n a, count_ones_step n b, xor_half a b)
      (omega (arith, xor_step a b, count_ones_xor n (a / 2) (b / 2)))

-- The parity flag of an exclusive or of two bytes is the agreement of their parities, so that to
-- turn one bit of a byte over turns the flag over.
pub parity_xor : (a b : ℕ) → a < 256 → b < 256 → parity (bit_xor a b) ≡ agree (parity a) (parity b)
unfolding parity
parity_xor a b ha hb = ground (arith, xor-lt 8 a b ha hb, count_ones_xor 8 a b)

module _ {W : Type 0} (s : State W) (lhs rhs : ℕ) (hl : lhs < 256) (hr : rhs < 256) where
  -- ADD: for bytes, the result and the carry flag are the sum, the overflow flag is clear exactly if the
  -- two's complement sum is right too, and zero, sign and auxiliary carry are of the result.
  pub add_byte_lem : IsSum lhs rhs 0 (add_byte s lhs rhs update_carry)
  unfolding add_byte arith_flags_a
  add_byte_lem =
      let res = (lhs + rhs) % 65536 in
      ground (arith, sum_overflow lhs rhs (res % 256), is_negative_lem res)

  -- ADC: for bytes, the result and the new carry flag are the sum with the old carry flag, the overflow
  -- flag is clear exactly if the two's complement sum is right too, and zero, sign and auxiliary
  -- carry are of the result.
  pub add_byte_with_carry_lem :
      IsSum lhs rhs (bit s.cc.cy) (add_byte_with_carry s lhs rhs update_carry)
  unfolding add_byte_with_carry arith_flags_a
  add_byte_with_carry_lem =
      let res = (lhs + rhs + bit s.cc.cy) % 65536 in
      ground (arith, sum_overflow lhs rhs (res % 256), is_negative_lem res)

  -- SUB: for bytes, the result and the carry flag, a borrow, are the difference, the overflow flag is
  -- clear exactly if the two's complement difference is right too, and zero, sign and auxiliary
  -- borrow are of the result.
  pub subtract_byte_lem : IsDifference lhs rhs 0 (subtract_byte s lhs rhs update_carry)
  unfolding subtract_byte arith_flags_a
  subtract_byte_lem =
      let res = (lhs + 65536 - rhs) % 65536 in
      ground (arith, difference_overflow lhs rhs (res % 256), is_negative_lem res)

  -- SBB: for bytes, the result and the new carry flag, a borrow, are the difference less the old carry
  -- flag, the overflow flag is clear exactly if the two's complement difference is right too, and
  -- zero, sign and auxiliary borrow are of the result.
  pub subtract_byte_with_borrow_lem :
      IsDifference lhs rhs (bit s.cc.cy) (subtract_byte_with_borrow s lhs rhs update_carry)
  unfolding subtract_byte_with_borrow arith_flags_a
  subtract_byte_with_borrow_lem =
      let res = (lhs + 65536 - (rhs + bit s.cc.cy)) % 65536 in
      ground (arith, difference_overflow lhs rhs (res % 256), is_negative_lem res)
