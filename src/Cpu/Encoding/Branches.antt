-- ===== src/Cpu/Encoding/Branches.antt =====
-- src/i8085_exec.c, opcodes 0xC0 to 0xFF: the conditional returns, jumps and calls, and RST.
use tool_i8085_trace.Prelude.{
  ℕ, ◌+◌, ◌*◌, ◌/◌, ◌%◌, ◌≡◌, refl, arith, Bool, if◌then◌else◌, u16, word,
}
use tool_i8085_trace.Cpu.State.{State, Bus}
use tool_i8085_trace.Cpu.Step.{execute}
use tool_i8085_trace.Cpu.Stack.{push_word, call, return_to_caller, rst}
use tool_i8085_trace.Cpu.Exec.Ops.{jump_if, call_if, return_if}
use tool_i8085_trace.Cpu.Exec.Control.{row_c, row_d, row_e, row_f}
use tool_i8085_trace.Cpu.Encoding.Fields.{Condition, nz, z, condition_code, holds}

-- The T-states of a conditional call.
abbrev pub call_states : Condition → Bool → ℕ
call_states nz taken = 9
call_states _ taken = if taken then 18 else 9

-- The word at an address, low byte first.
abbrev word_from : (ℕ → ℕ) → ℕ → ℕ
word_from memory x = word (memory (x + 1)) (memory x)

-- A word pushed and a jump.
abbrev push_and_jump : {W : Type 0} → Bus W → State W → ℕ → ℕ → State W
push_and_jump bus s from to =
    let t = push_word bus s (from / 256 % 256) (from % 256) in record t { pc = to }

-- The opcodes 11CCC000, 11CCC010, 11CCC100 and 11CCC111 are the return, jump and call on condition
-- CCC and RST CCC. Where the condition holds, the return takes PC from the stack in 12 T-states, and
-- the jump and the call take it from the operand, in 10 and 18, the call with the address behind the
-- operand pushed; where it does not, PC goes past the operand, in 6, 7 and 9. CNZ alone counts 9
-- even where the call is taken. RST n pushes PC and goes to 8 * n in 12 T-states.
pub execute-conditions :
    {W : Type 0} (bus : Bus W) (c : Condition) (s : State W) (at : ℕ)
    → let past = u16 (s.pc + 2) in
      let target = u16 (word_from s.memory (at + 1)) in
      (execute bus s at (0xc0 + 8 * condition_code c) ≡ (
        if holds c s
        then (record s { pc = u16 (word_from s.memory s.sp); sp = u16 (s.sp + 2) }, 12)
        else (s, 6)))
      × (execute bus s at (0xc2 + 8 * condition_code c)
          ≡ (if holds c s then (record s { pc = target }, 10) else (record s { pc = past }, 7)))
      × (execute bus s at (0xc4 + 8 * condition_code c) ≡ (
        if holds c s then push_and_jump bus s past target else record s { pc = past },
        call_states c (holds c s),
      ))
      × (execute bus s at (0xc7 + 8 * condition_code c)
          ≡ (push_and_jump bus s s.pc (8 * condition_code c), 12))
unfolding execute row_c row_d row_e row_f jump_if call_if return_if return_to_caller call rst
execute-conditions bus nz s at = (refl, ground arith, ground arith, refl)
execute-conditions bus z s at = (refl, ground arith, ground arith, refl)
execute-conditions bus _ s at = (refl, ground arith, ground arith, refl)
