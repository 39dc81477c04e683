-- ===== src/Cpu/Stack/Laws.antt =====
-- src/i8085_exec.c: calls and returns, and the two bytes below the stack pointer.
use tool_i8085_trace.Prelude.{ℕ, ◌+◌, ◌/◌, ◌%◌, ◌<◌, ◌≡◌, ◌≢◌, arith, u16, sub16, word, word_lem}
use tool_i8085_trace.Cpu.State.{State, Bus, store}
use tool_i8085_trace.Cpu.Stack.{mem_wr, push_word, call, return_to_caller}

-- In the machine `s` the write hook lets every byte through at the address, and changes nothing of its
-- own, whatever stands in memory and in SP by then.
abbrev pub Allows : {W : Type 0} → Bus W → State W → ℕ → Type 0
Allows {W} bus s a =
    (m : ℕ → ℕ) (sp v : ℕ)
    → v < 256
    → let t = record s { memory = m; sp = sp } in bus.mem_write t a v ≡ (t, v)

module _ {W : Type 0} (bus : Bus W) (s : State W) where
  pub mem_wr_allowed :
      (m : ℕ → ℕ) (sp a v : ℕ)
      → a < 65536
      → v < 256
      → Allows bus s a
      → mem_wr bus (record s { memory = m; sp = sp }) a v
        ≡ record s { memory = store m a v; sp = sp }
  unfolding mem_wr
  mem_wr_allowed m sp a v ha hv allowed = ground (arith, allowed m sp v)

-- The two stack cells below `sp`, with a word in them.
abbrev pub pushed : (ℕ → ℕ) → ℕ → ℕ → ℕ → ℕ → ℕ
pushed memory sp hi lo = store (store memory (sub16 sp 1) hi) (sub16 sp 2) lo

pub pushed_low : (m : ℕ → ℕ) (sp hi lo : ℕ) → pushed m sp hi lo (sub16 sp 2) ≡ lo
pushed_low m sp hi lo = ground arith

pub pushed_high :
    (m : ℕ → ℕ) (sp hi lo : ℕ) → sp < 65536 → sp ≢ 1 → pushed m sp hi lo (sub16 sp 2 + 1) ≡ hi
pushed_high m sp hi lo h ne = ground arith

module _ {W : Type 0} (bus : Bus W) (s : State W) (fits : s.sp < 65536)
    (high : Allows bus s (sub16 s.sp 1)) (low : Allows bus s (sub16 s.sp 2)) where
  pub push_word_lem :
      (hi lo : ℕ)
      → hi < 256
      → lo < 256
      → push_word bus s hi lo ≡ record s { memory = pushed s.memory s.sp hi lo; sp = sub16 s.sp 2 }
  unfolding push_word
  push_word_lem hi lo hh hl = ground (
    arith,
    mem_wr_allowed bus s s.memory s.sp (sub16 s.sp 1) hi,
    mem_wr_allowed bus s (store s.memory (sub16 s.sp 1) hi) s.sp (sub16 s.sp 2) lo,
  )

  -- CALL then RET: with a 16-bit SP other than 1 and the two bytes below it open to writes, the
  -- CPU is as before the call but for PC, which is past the operand, and those two bytes.
  pub return_to_caller-call :
      (addr : ℕ)
      → s.sp ≢ 1
      → return_to_caller (call bus s addr) ≡ record s {
        pc = u16 (s.pc + 2);
        memory = pushed s.memory s.sp (u16 (s.pc + 2) / 256 % 256) (u16 (s.pc + 2) % 256);
      }
  unfolding call return_to_caller
  return_to_caller-call addr apart =
      let pc = u16 (s.pc + 2) in
      rw (push_word_lem (pc / 256 % 256) (pc % 256) (omega arith) (omega arith)) (
        ground (
          arith,
          pushed_high s.memory s.sp (pc / 256 % 256) (pc % 256),
          pushed_low s.memory s.sp (pc / 256 % 256) (pc % 256),
          word_lem (pc / 256 % 256) (pc % 256),
        ))

  -- With SP at 1 the low byte of the return address goes to 0xFFFF and the high byte to 0, but
  -- RET reads the high byte at 0x10000, past the end of the buffer.
  pub return_to_caller-call_wrapped :
      (addr : ℕ)
      → s.sp ≡ 1
      → (return_to_caller (call bus s addr)).pc
        ≡ u16 (word (s.memory 0x10000) (u16 (s.pc + 2) % 256))
  unfolding call return_to_caller
  return_to_caller-call_wrapped addr at_one =
      let pc = u16 (s.pc + 2) in
      rw (push_word_lem (pc / 256 % 256) (pc % 256) (omega arith) (omega arith)) (ground arith)
