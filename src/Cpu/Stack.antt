-- ===== src/Cpu/Stack.antt =====
-- src/i8085_exec.c: the memory write and the stack operations. An address is computed in `int`
-- and masked by `mem_wr`, so `sp - 1` at 0 is 0xFFFF.
pub mod Laws
use tool_i8085_trace.Prelude.{ℕ, ◌+◌, ◌*◌, ◌/◌, ◌%◌, u8, u16, sub16, word}
use tool_i8085_trace.Cpu.State.{State, Bus, store}

module _ {W : Type 0} where
  -- The hook has the value that is stored: the byte of the write, or another to veto it.
  unfoldable pub mem_wr : Bus W → State W → ℕ → ℕ → State W
  mem_wr bus s addr val =
      let a = u16 addr in
      let (s', v) = bus.mem_write s a (u8 val) in record s' { memory = store s'.memory a v }

  -- The bytes at `sp - 1` and `sp - 2`, high byte first.
  unfoldable pub push_word : Bus W → State W → ℕ → ℕ → State W
  unfolding mem_wr
  push_word bus s hi lo =
      let s1 = mem_wr bus s (sub16 s.sp 1) hi in
      let s2 = mem_wr bus s1 (sub16 s1.sp 2) lo in record s2 { sp = sub16 s2.sp 2 }

  unfoldable pub call : Bus W → State W → ℕ → State W
  call bus s addr =
      let pc = u16 (s.pc + 2) in
      let s' = push_word bus s (pc / 256 % 256) (pc % 256) in record s' { pc = u16 addr }

  unfoldable pub return_to_caller : State W → State W
  return_to_caller s = record s {
    pc = u16 (word (s.memory (s.sp + 1)) (s.memory s.sp));
    sp = u16 (s.sp + 2);
  }

  unfoldable pub rst : Bus W → State W → ℕ → ℕ → State W
  rst bus s rst_number half =
      let pc = s.pc in
      let s' = push_word bus s (pc / 256 % 256) (pc % 256) in
      record s' { pc = u16 (rst_number * 8 + half * 4) }
