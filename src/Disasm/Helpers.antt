-- ===== src/Disasm/Helpers.antt =====
-- src/i8085_exec.c: what leaves PC alone.
use tool_i8085_trace.Prelude.{ℕ}
use tool_i8085_trace.Prelude.{◌≡◌, refl, arith}
use tool_i8085_trace.Prelude.{ℕ}
use tool_i8085_trace.Cpu.State.{State}
use tool_i8085_trace.Cpu.Alu.{
  add_byte, add_byte_with_carry, subtract_byte, subtract_byte_with_borrow, arith_flags_a,
}
use tool_i8085_trace.Cpu.Exec.Ops.{dad, add_to, adc_to, sub_to, sbb_to}
use tool_i8085_trace.Cpu.Exec.Special.{rlc, rrc, dsub, rim, daa, sim}
use tool_i8085_trace.Cpu.Alu.{ShouldPreserveCarry}
use tool_i8085_trace.Cpu.Alu.{ShouldPreserveCarry}

module _ {W : Type 0} where
  pub rlc-pc : (s : State W) → (rlc s).pc ≡ s.pc
  unfolding rlc
  rlc-pc s = ground arith

  pub rrc-pc : (s : State W) → (rrc s).pc ≡ s.pc
  unfolding rrc
  rrc-pc s = ground arith

  pub rim-pc : (s : State W) → (rim s).pc ≡ s.pc
  unfolding rim
  rim-pc s = ground arith

  pub daa-pc : (s : State W) → (daa s).pc ≡ s.pc
  unfolding daa
  daa-pc s = ground arith

  pub dsub-pc : (s : State W) → (dsub s).pc ≡ s.pc
  unfolding dsub subtract_byte arith_flags_a
  dsub-pc s = ground arith

  pub dad-pc : (s : State W) (rp : ℕ) → (dad s rp).0.pc ≡ s.pc
  unfolding dad
  dad-pc s rp = ground arith

  pub arith_flags_a-pc :
      (s : State W) (res : ℕ) (k : ShouldPreserveCarry) → (arith_flags_a s res k).pc ≡ s.pc
  unfolding arith_flags_a
  arith_flags_a-pc s res k = refl

  pub add_byte-pc :
      (s : State W) (lhs rhs : ℕ) (k : ShouldPreserveCarry) → (add_byte s lhs rhs k).0.pc ≡ s.pc
  unfolding add_byte arith_flags_a
  add_byte-pc s lhs rhs k = refl

  pub add_byte_with_carry-pc :
      (s : State W) (lhs rhs : ℕ) (k : ShouldPreserveCarry)
      → (add_byte_with_carry s lhs rhs k).0.pc ≡ s.pc
  unfolding add_byte_with_carry arith_flags_a
  add_byte_with_carry-pc s lhs rhs k = refl

  pub subtract_byte-pc :
      (s : State W) (lhs rhs : ℕ) (k : ShouldPreserveCarry)
      → (subtract_byte s lhs rhs k).0.pc ≡ s.pc
  unfolding subtract_byte arith_flags_a
  subtract_byte-pc s lhs rhs k = refl

  pub subtract_byte_with_borrow-pc :
      (s : State W) (lhs rhs : ℕ) (k : ShouldPreserveCarry)
      → (subtract_byte_with_borrow s lhs rhs k).0.pc ≡ s.pc
  unfolding subtract_byte_with_borrow arith_flags_a
  subtract_byte_with_borrow-pc s lhs rhs k = refl

  pub sim-pc : (s : State W) → (sim s).pc ≡ s.pc
  unfolding sim
  sim-pc s = ground arith

  pub add_to-pc : (s : State W) (y n : ℕ) → (add_to s y n).0.pc ≡ s.pc
  unfolding add_to add_byte arith_flags_a
  add_to-pc s y n = refl

  pub adc_to-pc : (s : State W) (y n : ℕ) → (adc_to s y n).0.pc ≡ s.pc
  unfolding adc_to add_byte_with_carry arith_flags_a
  adc_to-pc s y n = refl

  pub sub_to-pc : (s : State W) (y n : ℕ) → (sub_to s y n).0.pc ≡ s.pc
  unfolding sub_to subtract_byte arith_flags_a
  sub_to-pc s y n = refl

  pub sbb_to-pc : (s : State W) (y n : ℕ) → (sbb_to s y n).0.pc ≡ s.pc
  unfolding sbb_to subtract_byte_with_borrow arith_flags_a
  sbb_to-pc s y n = refl
