-- ===== src/Cpu/Exec/Ops.antt =====
-- src/i8085_exec.c: what the cases of `Emulate8085Op` repeat. `at` is the address of the opcode.
use tool_i8085_trace.Prelude.{ℕ, ◌+◌, ◌/◌, ◌%◌, bit_and, bit_or, bit_xor, Bool, true, false}
use tool_i8085_trace.Prelude.{◌==◌, ltb, ◌&&◌, if◌then◌else◌, u8, u16, sub8, word}
use tool_i8085_trace.Cpu.State.{State, Bus}
use tool_i8085_trace.Cpu.Alu.{
  update_carry, logic_flags_a, add_byte, add_byte_with_carry, subtract_byte,
  subtract_byte_with_borrow,
}
use tool_i8085_trace.Cpu.Stack.{mem_wr, call, return_to_caller}

-- INX: the pair is counted up byte by byte; X5 tells the wrap to 0.
unfoldable pub inx : ℕ → ℕ → record { hi : ℕ; lo : ℕ; wrapped : Bool }
inx hi lo =
    let lo' = u8 (lo + 1) in
    let hi' : ℕ = if lo' == 0 then u8 (hi + 1) else hi in
    record { hi = hi'; lo = lo'; wrapped = hi' == 0 && lo' == 0 }

-- DCX: X5 tells the wrap to 0xFFFF.
unfoldable pub dcx : ℕ → ℕ → record { hi : ℕ; lo : ℕ; wrapped : Bool }
dcx hi lo =
    let lo' = sub8 lo 1 in
    let hi' : ℕ = if lo' == 0xff then sub8 hi 1 else hi in
    record { hi = hi'; lo = lo'; wrapped = hi' == 0xff && lo' == 0xff }

module _ {W : Type 0} where
  -- `opcode[k]`
  abbrev pub operand : State W → ℕ → ℕ → ℕ
  operand s at k = s.memory (at + k)

  -- `(opcode[2] << 8) | opcode[1]`
  abbrev pub address : State W → ℕ → ℕ
  address s at = word (operand s at 2) (operand s at 1)

  -- `state->pc += n`
  abbrev pub skip : State W → ℕ → State W
  skip s n = record s { pc = u16 (s.pc + n) }

  -- The byte at HL.
  abbrev pub at_hl : State W → ℕ
  at_hl s = s.memory (word s.h s.l)

  -- MOV M, r
  unfoldable pub store_hl : Bus W → State W → ℕ → State W
  store_hl bus s val = mem_wr bus s (word s.h s.l) val

  -- DAD, in 32 bits, which two 16-bit words do not overflow.
  unfoldable pub dad : State W → ℕ → State W × ℕ
  dad s rp =
      let res = word s.h s.l + rp in
      (
        record s {
          h = res / 256 % 256;
          l = res % 256;
          cc = record (s.cc) { cy = ltb 0 (res / 65536) };
        },
        10,
      )

  unfoldable pub jump_if : Bool → State W → ℕ → State W × ℕ
  jump_if c s at = if c then (record s { pc = u16 (address s at) }, 10) else (skip s 2, 7)

  unfoldable pub call_if : Bus W → Bool → State W → ℕ → State W × ℕ
  call_if bus c s at = if c then (call bus s (address s at), 18) else (skip s 2, 9)

  unfoldable pub return_if : Bool → State W → State W × ℕ
  return_if c s = if c then (return_to_caller s, 12) else (s, 6)

  unfoldable pub add_to : State W → ℕ → ℕ → State W × ℕ
  add_to s x states = let (t, r) = add_byte s s.a x update_carry in (record t { a = r }, states)

  unfoldable pub adc_to : State W → ℕ → ℕ → State W × ℕ
  adc_to s x states =
      let (t, r) = add_byte_with_carry s s.a x update_carry in (record t { a = r }, states)

  unfoldable pub sub_to : State W → ℕ → ℕ → State W × ℕ
  sub_to s x states =
      let (t, r) = subtract_byte s s.a x update_carry in (record t { a = r }, states)

  unfoldable pub sbb_to : State W → ℕ → ℕ → State W × ℕ
  sbb_to s x states =
      let (t, r) = subtract_byte_with_borrow s s.a x update_carry in (record t { a = r }, states)

  unfoldable pub compare_with : State W → ℕ → ℕ → State W × ℕ
  compare_with s x states = ((subtract_byte s s.a x update_carry).0, states)

  unfoldable pub and_with : State W → ℕ → ℕ → State W × ℕ
  and_with s x states = (logic_flags_a (record s { a = bit_and s.a x }) true, states)

  unfoldable pub xor_with : State W → ℕ → ℕ → State W × ℕ
  xor_with s x states = (logic_flags_a (record s { a = bit_xor s.a x }) false, states)

  unfoldable pub or_with : State W → ℕ → ℕ → State W × ℕ
  or_with s x states = (logic_flags_a (record s { a = bit_or s.a x }) false, states)
