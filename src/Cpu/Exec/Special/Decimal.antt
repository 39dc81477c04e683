-- ===== src/Cpu/Exec/Special/Decimal.antt =====
-- src/i8085_exec.c, DAA: the decimal correction after an addition of packed decimals.
use tool_i8085_trace.Prelude.{ℕ, ◌+◌, ◌*◌, ◌/◌, ◌%◌, ◌≤◌, ◌≡◌, arith, bit}
use tool_i8085_trace.Cpu.State.{State}
use tool_i8085_trace.Cpu.Alu.{add_byte_with_carry, arith_flags_a}
use tool_i8085_trace.Cpu.Exec.Ops.{adc_to}
use tool_i8085_trace.Cpu.Exec.Special.{daa}

-- Two decimal digits in one byte, and their value.
abbrev pub IsPacked : ℕ → Type 0
IsPacked x = (x / 16 ≤ 9) × (x % 16 ≤ 9)

abbrev pub decimal : ℕ → ℕ
decimal x = x / 16 * 10 + x % 16

-- ADC then DAA adds packed decimals: for a packed accumulator and operand, the accumulator is
-- packed again, and with the carry as hundreds it is the decimal sum, the old carry included.
pub daa-adc_to :
    {W : Type 0} (s : State W) (y : ℕ)
    → IsPacked s.a
    → IsPacked y
    → let u = daa (adc_to s y 4).0 in
      IsPacked u.a × (decimal u.a + 100 * bit u.cc.cy ≡ decimal s.a + decimal y + bit s.cc.cy)
unfolding daa adc_to add_byte_with_carry arith_flags_a
daa-adc_to s y ha hy = ground arith
