-- ===== src/Disasm/LowRows.antt =====
-- src/i8085_exec.c: PC after an opcode below 0x80, by the disassembler.
use tool_i8085_trace.Prelude.{ℕ}
use tool_i8085_trace.Prelude.{◌+◌, ◌≤◌, ◌<◌, ◌≡◌, ◌||◌, arith, ◌==◌, if◌then◌else◌, u16}
use tool_i8085_trace.Prelude.{ℕ}
use tool_i8085_trace.Cpu.State.{State, Bus}
use tool_i8085_trace.Cpu.Alu.{add_byte, subtract_byte, arith_flags_a}
use tool_i8085_trace.Cpu.Stack.{mem_wr}
use tool_i8085_trace.Cpu.Exec.Ops.{dad, store_hl}
use tool_i8085_trace.Cpu.Exec.Special.{ral, rar, arhl, rdel}
use tool_i8085_trace.Cpu.Exec.Load.{row_0, row_1, row_2, row_3}
use tool_i8085_trace.Cpu.Exec.Move.{row_4, row_5, row_6, row_7}
use tool_i8085_trace.Disasm.Transfers.{
  moved_on, row_0_length, row_1_length, row_2_length, row_3_length, middle_length,
}
use tool_i8085_trace.Disasm.Helpers.{
  rlc-pc, rrc-pc, rim-pc, daa-pc, dsub-pc, dad-pc, add_byte-pc, subtract_byte-pc, sim-pc,
}

module _ {W : Type 0} (bus : Bus W)
    (keep_wr : (s : State W) (a v : ℕ) → (mem_wr bus s a v).pc ≡ s.pc)
    (keep_out : (s : State W) (a v : ℕ) → (bus.io_write s a v).pc ≡ s.pc)
    (keep_pre : (s : State W) (a : ℕ) → (bus.io_pre_read s a).pc ≡ s.pc)
    (keep_in : (s : State W) (a v : ℕ) → (bus.io_read s a v).pc ≡ s.pc) where
  row_0-pc :
      (s : State W) (at op : ℕ)
      → (row_0 bus s at op).0.pc ≡ (
          if op == 0x01
          then u16 (s.pc + 2)
          else if op == 0x06 || op == 0x0e
          then u16 (s.pc + 1)
          else s.pc)
  unfolding row_0
  row_0-pc s at op =
      grind (arith, keep_wr, rlc-pc, rrc-pc, dsub-pc, dad-pc, add_byte-pc, subtract_byte-pc)

  pub row_0-opbytes :
      (s : State W) (at op : ℕ)
      → s.pc < 65536
      → op < 0x10
      → (row_0 bus s at op).0.pc ≡ moved_on s op
  row_0-opbytes s at op fits hi = ground (arith, row_0-pc s at op, row_0_length op hi)

  row_1-pc :
      (s : State W) (at op : ℕ)
      → (row_1 bus s at op).0.pc ≡ (
          if op == 0x11
          then u16 (s.pc + 2)
          else if op == 0x16 || op == 0x1e
          then u16 (s.pc + 1)
          else s.pc)
  unfolding row_1 dad arhl rdel ral rar add_byte subtract_byte arith_flags_a
  row_1-pc s at op = grind (arith, keep_wr)

  pub row_1-opbytes :
      (s : State W) (at op : ℕ)
      → s.pc < 65536
      → 0x10 ≤ op
      → op < 0x20
      → (row_1 bus s at op).0.pc ≡ moved_on s op
  row_1-opbytes s at op fits lo hi = ground (arith, row_1-pc s at op, row_1_length op lo hi)

  row_2-pc :
      (s : State W) (at op : ℕ)
      → (row_2 bus s at op).0.pc ≡ (
          if op == 0x21 || op == 0x22 || op == 0x2a
          then u16 (s.pc + 2)
          else if op == 0x26 || op == 0x28 || op == 0x2e
          then u16 (s.pc + 1)
          else s.pc)
  unfolding row_2
  row_2-pc s at op = grind (arith, keep_wr, rim-pc, daa-pc, dad-pc, add_byte-pc, subtract_byte-pc)

  pub row_2-opbytes :
      (s : State W) (at op : ℕ)
      → s.pc < 65536
      → 0x20 ≤ op
      → op < 0x30
      → (row_2 bus s at op).0.pc ≡ moved_on s op
  row_2-opbytes s at op fits lo hi = ground (arith, row_2-pc s at op, row_2_length op lo hi)

  row_3-pc :
      (s : State W) (at op : ℕ)
      → (row_3 bus s at op).0.pc ≡ (
          if op == 0x31 || op == 0x32 || op == 0x3a
          then u16 (s.pc + 2)
          else if op == 0x36 || op == 0x38 || op == 0x3e
          then u16 (s.pc + 1)
          else s.pc)
  unfolding row_3
  row_3-pc s at op = grind (arith, keep_wr, sim-pc, dad-pc, add_byte-pc, subtract_byte-pc)

  pub row_3-opbytes :
      (s : State W) (at op : ℕ)
      → s.pc < 65536
      → 0x30 ≤ op
      → op < 0x40
      → (row_3 bus s at op).0.pc ≡ moved_on s op
  row_3-opbytes s at op fits lo hi = ground (arith, row_3-pc s at op, row_3_length op lo hi)

  row_4-pc : (s : State W) (at op : ℕ) → (row_4 bus s at op).0.pc ≡ (s.pc)
  unfolding row_4
  row_4-pc s at op = ground arith

  pub row_4-opbytes :
      (s : State W) (at op : ℕ)
      → s.pc < 65536
      → 0x40 ≤ op
      → op < 0x50
      → (row_4 bus s at op).0.pc ≡ moved_on s op
  row_4-opbytes s at op fits lo hi =
      ground (arith, row_4-pc s at op, middle_length op (omega arith) (omega arith))

  row_5-pc : (s : State W) (at op : ℕ) → (row_5 bus s at op).0.pc ≡ (s.pc)
  unfolding row_5
  row_5-pc s at op = ground arith

  pub row_5-opbytes :
      (s : State W) (at op : ℕ)
      → s.pc < 65536
      → 0x50 ≤ op
      → op < 0x60
      → (row_5 bus s at op).0.pc ≡ moved_on s op
  row_5-opbytes s at op fits lo hi =
      ground (arith, row_5-pc s at op, middle_length op (omega arith) (omega arith))

  row_6-pc : (s : State W) (at op : ℕ) → (row_6 bus s at op).0.pc ≡ (s.pc)
  unfolding row_6
  row_6-pc s at op = ground arith

  pub row_6-opbytes :
      (s : State W) (at op : ℕ)
      → s.pc < 65536
      → 0x60 ≤ op
      → op < 0x70
      → (row_6 bus s at op).0.pc ≡ moved_on s op
  row_6-opbytes s at op fits lo hi =
      ground (arith, row_6-pc s at op, middle_length op (omega arith) (omega arith))

  row_7-pc : (s : State W) (at op : ℕ) → (row_7 bus s at op).0.pc ≡ (s.pc)
  unfolding row_7 store_hl
  row_7-pc s at op = grind (arith, keep_wr)

  pub row_7-opbytes :
      (s : State W) (at op : ℕ)
      → s.pc < 65536
      → 0x70 ≤ op
      → op < 0x80
      → (row_7 bus s at op).0.pc ≡ moved_on s op
  row_7-opbytes s at op fits lo hi =
      ground (arith, row_7-pc s at op, middle_length op (omega arith) (omega arith))
