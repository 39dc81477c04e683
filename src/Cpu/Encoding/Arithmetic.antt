-- ===== src/Cpu/Encoding/Arithmetic.antt =====
-- src/i8085_exec.c, opcodes 0x80 to 0xBF and 0xC6 to 0xFE: an operation on the accumulator with
-- a register, memory or the byte after the opcode.
use tool_i8085_trace.Prelude.{ℕ, ◌+◌, ◌*◌, ◌<◌, ◌%◌, ◌≡◌, refl, arith, if◌then◌else◌, sub8, sub16}
use tool_i8085_trace.Cpu.State.{State, Bus}
use tool_i8085_trace.Cpu.Alu.{
  add_byte, add_byte_with_carry, subtract_byte, subtract_byte_with_borrow, arith_flags_a,
}
use tool_i8085_trace.Cpu.Alu.Overflow.{is_negative_lem}
use tool_i8085_trace.Cpu.Step.{execute}
use tool_i8085_trace.Cpu.Exec.Ops.{
  operand, skip, add_to, adc_to, sub_to, sbb_to, and_with, xor_with, or_with, compare_with,
}
use tool_i8085_trace.Cpu.Exec.Special.{adi, cpi}
use tool_i8085_trace.Cpu.Exec.Arith.{row_8, row_9, row_a, row_b}
use tool_i8085_trace.Cpu.Exec.Control.{row_c, row_d, row_e, row_f}
use tool_i8085_trace.Cpu.Encoding.Fields.{
  Reg, b, reg_code, is_memory, read_reg, Operation, add, adc, sub, sbb, ana, xra, ora, cmp,
  operation_code, operate,
}

-- Every opcode 0x80 to 0xBF, by its fields: operation OOO on the accumulator and register SSS, in 7
-- T-states for memory and else in 4.
pub execute-operate :
    {W : Type 0} (bus : Bus W) (o : Operation) (src : Reg) (s : State W) (at : ℕ)
    → execute bus s at (0x80 + 8 * operation_code o + reg_code src)
      ≡ operate o s (read_reg src s) (if is_memory src then 7 else 4)
unfolding execute row_8 row_9 row_a row_b
execute-operate bus add b s at = refl
execute-operate bus adc b s at = refl
execute-operate bus sub b s at = refl
execute-operate bus sbb b s at = refl
execute-operate bus ana b s at = refl
execute-operate bus xra b s at = refl
execute-operate bus ora b s at = refl
execute-operate bus cmp b s at = refl
execute-operate bus _ _ s at = refl

byte_of_difference : (x y : ℕ) → x < 256 → y < 256 → sub16 x y % 256 ≡ sub8 x y
byte_of_difference x y hx hy = omega arith

-- The state after an immediate form, by the register form.
abbrev pub immediate : {W : Type 0} → Operation → State W → ℕ → State W
immediate add s x =
    let t = (add_to s x 7).0 in skip (record t { cc = record (t.cc) { v = s.cc.v } }) 1
immediate cmp s x =
    let t = (compare_with s x 7).0 in skip (record t { cc = record (t.cc) { v = s.cc.v } }) 1
immediate o s x = skip (operate o s x 7).0 1

-- The opcodes 11OOO110, for an accumulator and an operand that are bytes: the same operation on the
-- operand, in 7 T-states, with PC moved over it, but ADI and CPI leave the V flag as it was.
pub execute-immediate :
    {W : Type 0} (bus : Bus W) (o : Operation) (s : State W) (at : ℕ)
    → s.a < 256
    → operand s at 1 < 256
    → execute bus s at (0xc6 + 8 * operation_code o) ≡ (immediate o s (operand s at 1), 7)
unfolding execute row_c row_d row_e row_f add_to adc_to sub_to sbb_to and_with xor_with or_with
    compare_with adi cpi add_byte add_byte_with_carry subtract_byte subtract_byte_with_borrow
    arith_flags_a
execute-immediate bus add s at ha hx = ground arith
execute-immediate bus cmp s at ha hx = ground (
  arith,
  is_negative_lem (sub8 s.a (operand s at 1)),
  is_negative_lem (sub16 s.a (operand s at 1)),
  byte_of_difference s.a (operand s at 1) ha hx,
)
execute-immediate bus adc s at ha hx = refl
execute-immediate bus _ s at ha hx = refl
