-- ===== src/Cpu/Alu.antt =====
-- src/i8085_exec.c: the flags and the byte adders. A function that updates the flags returns the
-- new state beside its result.
pub mod Overflow
pub mod Laws
use tool_i8085_trace.Prelude.{ℕ, zero, suc, ◌+◌, ◌/◌, ◌%◌, bit_and, bit_xor, Bool, false}
use tool_i8085_trace.Prelude.{◌==◌, ltb, if◌then◌else◌, bit, u8, u16, sub16}
use tool_i8085_trace.Cpu.State.{State, flag}

pub data ShouldPreserveCarry : Type 0 where
  preserve_carry update_carry : ShouldPreserveCarry

-- The loop of `parity`, with the rounds left, and its counter.
unfoldable pub count_ones : ℕ → ℕ → ℕ → ℕ
count_ones zero x p = p
count_ones (suc left) x p = count_ones left (x / 2) (if x % 2 == 1 then p + 1 else p)

-- `x & ((1 << 8) - 1)` first: every call of the source has size 8.
unfoldable pub parity : ℕ → Bool
parity x = count_ones 8 (u8 x) 0 % 2 == 0

-- `0x80 == (x & 0x80)`
unfoldable pub is_negative : ℕ → Bool
is_negative x = bit_and x 0x80 == 0x80

module _ {W : Type 0} where
  unfoldable pub logic_flags_a : State W → Bool → State W
  logic_flags_a s ac = record s {
    cc = record (s.cc) { cy = false; ac = ac; z = s.a == 0; s = is_negative s.a; p = parity s.a };
  }

  unfoldable pub arith_flags_a : State W → ℕ → ShouldPreserveCarry → State W
  arith_flags_a s res keep = record s {
    cc = record (s.cc) {
      cy = elim keep [ update_carry ↦ ltb 0xff res | preserve_carry ↦ s.cc.cy ];
      z = res % 256 == 0;
      s = is_negative res;
      p = parity (res % 256);
    };
  }

  unfoldable pub add_byte : State W → ℕ → ℕ → ShouldPreserveCarry → State W × ℕ
  add_byte s lhs rhs keep =
      let res = u16 (lhs + rhs) in
      let ac = ltb 0xf (lhs % 16 + rhs % 16) in
      let v =
        flag
          (bit_and (bit_and (bit_xor (bit_xor lhs rhs) 0x80) (bit_xor lhs (u8 res))) 0x80 / 128) in
      (arith_flags_a (record s { cc = record (s.cc) { ac = ac; v = v } }) res keep, u8 res)

  unfoldable pub add_byte_with_carry : State W → ℕ → ℕ → ShouldPreserveCarry → State W × ℕ
  add_byte_with_carry s lhs rhs keep =
      let carry = bit s.cc.cy in
      let res = u16 (lhs + rhs + carry) in
      let ac = ltb 0xf (lhs % 16 + rhs % 16 + carry) in
      let v =
        flag
          (bit_and (bit_and (bit_xor (bit_xor lhs rhs) 0x80) (bit_xor lhs (u8 res))) 0x80 / 128) in
      (arith_flags_a (record s { cc = record (s.cc) { ac = ac; v = v } }) res keep, u8 res)

  unfoldable pub subtract_byte : State W → ℕ → ℕ → ShouldPreserveCarry → State W × ℕ
  subtract_byte s lhs rhs keep =
      let res = sub16 lhs rhs in
      let ac = ltb (lhs % 16) (rhs % 16) in
      let v = flag (bit_and (bit_and (bit_xor lhs rhs) (bit_xor lhs (u8 res))) 0x80 / 128) in
      (arith_flags_a (record s { cc = record (s.cc) { ac = ac; v = v } }) res keep, u8 res)

  unfoldable pub subtract_byte_with_borrow : State W → ℕ → ℕ → ShouldPreserveCarry → State W × ℕ
  subtract_byte_with_borrow s lhs rhs keep =
      let carry = bit s.cc.cy in
      let res = sub16 lhs (rhs + carry) in
      let ac = ltb (lhs % 16) (rhs % 16 + carry) in
      let v = flag (bit_and (bit_and (bit_xor lhs rhs) (bit_xor lhs (u8 res))) 0x80 / 128) in
      (arith_flags_a (record s { cc = record (s.cc) { ac = ac; v = v } }) res keep, u8 res)
