-- ===== src/Cpu/Encoding/Fields.antt =====
-- The fields of an opcode: register, operation and condition codes, and what each means.
use tool_i8085_trace.Prelude.{ℕ, Bool, true, false, not, word}
use tool_i8085_trace.Cpu.State.{State, Bus}
use tool_i8085_trace.Cpu.Stack.{mem_wr}
use tool_i8085_trace.Cpu.Exec.Ops.{
  add_to, adc_to, sub_to, sbb_to, and_with, xor_with, or_with, compare_with,
}

-- DDD and SSS; `m` is the byte at HL.
pub data Reg : Type 0 where
  b c d e h l m a : Reg

abbrev pub reg_code : Reg → ℕ
reg_code b = 0
reg_code c = 1
reg_code d = 2
reg_code e = 3
reg_code h = 4
reg_code l = 5
reg_code m = 6
reg_code a = 7

abbrev pub is_memory : Reg → Bool
is_memory m = true
is_memory _ = false

-- The operation of an 8-bit arithmetic or logic instruction.
pub data Operation : Type 0 where
  add adc sub sbb ana xra ora cmp : Operation

abbrev pub operation_code : Operation → ℕ
operation_code add = 0
operation_code adc = 1
operation_code sub = 2
operation_code sbb = 3
operation_code ana = 4
operation_code xra = 5
operation_code ora = 6
operation_code cmp = 7

-- CCC
pub data Condition : Type 0 where
  nz z nc cy po pe p mi : Condition

abbrev pub condition_code : Condition → ℕ
condition_code nz = 0
condition_code z = 1
condition_code nc = 2
condition_code cy = 3
condition_code po = 4
condition_code pe = 5
condition_code p = 6
condition_code mi = 7

module _ {W : Type 0} where
  abbrev pub read_reg : Reg → State W → ℕ
  read_reg b s = s.b
  read_reg c s = s.c
  read_reg d s = s.d
  read_reg e s = s.e
  read_reg h s = s.h
  read_reg l s = s.l
  read_reg m s = s.memory (word s.h s.l)
  read_reg a s = s.a

  abbrev pub write_reg : Bus W → Reg → State W → ℕ → State W
  write_reg bus b s x = record s { b = x }
  write_reg bus c s x = record s { c = x }
  write_reg bus d s x = record s { d = x }
  write_reg bus e s x = record s { e = x }
  write_reg bus h s x = record s { h = x }
  write_reg bus l s x = record s { l = x }
  write_reg bus m s x = mem_wr bus s (word s.h s.l) x
  write_reg bus a s x = record s { a = x }

  -- The operation on the accumulator, with the T-states of the form at hand.
  abbrev pub operate : Operation → State W → ℕ → ℕ → State W × ℕ
  operate add s x n = add_to s x n
  operate adc s x n = adc_to s x n
  operate sub s x n = sub_to s x n
  operate sbb s x n = sbb_to s x n
  operate ana s x n = and_with s x n
  operate xra s x n = xor_with s x n
  operate ora s x n = or_with s x n
  operate cmp s x n = compare_with s x n

  abbrev pub holds : Condition → State W → Bool
  holds nz s = not s.cc.z
  holds z s = s.cc.z
  holds nc s = not s.cc.cy
  holds cy s = s.cc.cy
  holds po s = not s.cc.p
  holds pe s = s.cc.p
  holds p s = not s.cc.s
  holds mi s = s.cc.s
