-- ===== src/Disasm/HighRows.antt =====
-- src/i8085_exec.c: PC after an opcode from 0x80 that is no transfer, by the disassembler.
use tool_i8085_trace.Prelude.{ℕ}
use tool_i8085_trace.Prelude.{◌+◌, ◌≤◌, ◌<◌, ◌≡◌, false, ◌||◌, arith, ◌==◌, if◌then◌else◌, u16}
use tool_i8085_trace.Prelude.{ℕ}
use tool_i8085_trace.Cpu.State.{State, Bus}
use tool_i8085_trace.Cpu.Alu.{subtract_byte, arith_flags_a, logic_flags_a}
use tool_i8085_trace.Cpu.Stack.{mem_wr}
use tool_i8085_trace.Cpu.Exec.Ops.{and_with, xor_with, or_with, compare_with}
use tool_i8085_trace.Cpu.Exec.Special.{pop_psw, push_psw, adi, cpi, xthl}
use tool_i8085_trace.Cpu.Exec.Arith.{row_8, row_9, row_a, row_b}
use tool_i8085_trace.Cpu.Exec.Control.{row_c, row_d, row_e, row_f}
use tool_i8085_trace.Disasm.Transfers.{
  transfers, moved_on, row_c_length, row_d_length, row_e_length, row_f_length, middle_length,
  transfers_c, kept_c, transfers_d, kept_d, transfers_e, kept_e, transfers_f, kept_f,
}
use tool_i8085_trace.Disasm.Helpers.{
  add_byte_with_carry-pc, subtract_byte-pc, subtract_byte_with_borrow-pc, add_to-pc, adc_to-pc,
  sub_to-pc, sbb_to-pc,
}

module _ {W : Type 0} (bus : Bus W)
    (keep_wr : (s : State W) (a v : ℕ) → (mem_wr bus s a v).pc ≡ s.pc)
    (keep_out : (s : State W) (a v : ℕ) → (bus.io_write s a v).pc ≡ s.pc)
    (keep_pre : (s : State W) (a : ℕ) → (bus.io_pre_read s a).pc ≡ s.pc)
    (keep_in : (s : State W) (a v : ℕ) → (bus.io_read s a v).pc ≡ s.pc) where
  row_8-pc : (s : State W) (at op : ℕ) → (row_8 bus s at op).0.pc ≡ (s.pc)
  unfolding row_8
  row_8-pc s at op = grind (arith, add_to-pc, adc_to-pc)

  pub row_8-opbytes :
      (s : State W) (at op : ℕ)
      → s.pc < 65536
      → 0x80 ≤ op
      → op < 0x90
      → (row_8 bus s at op).0.pc ≡ moved_on s op
  row_8-opbytes s at op fits lo hi =
      ground (arith, row_8-pc s at op, middle_length op (omega arith) (omega arith))

  row_9-pc : (s : State W) (at op : ℕ) → (row_9 bus s at op).0.pc ≡ (s.pc)
  unfolding row_9
  row_9-pc s at op = grind (arith, sub_to-pc, sbb_to-pc)

  pub row_9-opbytes :
      (s : State W) (at op : ℕ)
      → s.pc < 65536
      → 0x90 ≤ op
      → op < 0xa0
      → (row_9 bus s at op).0.pc ≡ moved_on s op
  row_9-opbytes s at op fits lo hi =
      ground (arith, row_9-pc s at op, middle_length op (omega arith) (omega arith))

  row_a-pc : (s : State W) (at op : ℕ) → (row_a bus s at op).0.pc ≡ (s.pc)
  unfolding row_a and_with xor_with logic_flags_a
  row_a-pc s at op = ground arith

  pub row_a-opbytes :
      (s : State W) (at op : ℕ)
      → s.pc < 65536
      → 0xa0 ≤ op
      → op < 0xb0
      → (row_a bus s at op).0.pc ≡ moved_on s op
  row_a-opbytes s at op fits lo hi =
      ground (arith, row_a-pc s at op, middle_length op (omega arith) (omega arith))

  row_b-pc : (s : State W) (at op : ℕ) → (row_b bus s at op).0.pc ≡ (s.pc)
  unfolding row_b or_with compare_with logic_flags_a subtract_byte arith_flags_a
  row_b-pc s at op = ground arith

  pub row_b-opbytes :
      (s : State W) (at op : ℕ)
      → s.pc < 65536
      → 0xb0 ≤ op
      → op < 0xc0
      → (row_b bus s at op).0.pc ≡ moved_on s op
  row_b-opbytes s at op fits lo hi =
      ground (arith, row_b-pc s at op, middle_length op (omega arith) (omega arith))

  row_c-pc :
      (s : State W) (at op : ℕ)
      → 0xc0 ≤ op
      → op < 0xd0
      → transfers_c op ≡ false
      → (row_c bus s at op).0.pc ≡ (if op == 0xc6 || op == 0xce then u16 (s.pc + 1) else s.pc)
  unfolding row_c adi
  row_c-pc s at op lo hi t = grind (arith, keep_wr, add_byte_with_carry-pc)

  pub row_c-opbytes :
      (s : State W) (at op : ℕ)
      → s.pc < 65536
      → 0xc0 ≤ op
      → op < 0xd0
      → transfers op ≡ false
      → (row_c bus s at op).0.pc ≡ moved_on s op
  row_c-opbytes s at op fits lo hi t =
      ground (arith, row_c-pc s at op lo hi (kept_c op t), row_c_length op lo hi t)

  row_d-pc :
      (s : State W) (at op : ℕ)
      → 0xd0 ≤ op
      → op < 0xe0
      → transfers_d op ≡ false
      → (row_d bus s at op).0.pc
        ≡ (if op == 0xd3 || op == 0xd6 || op == 0xdb || op == 0xde then u16 (s.pc + 1) else s.pc)
  unfolding row_d
  row_d-pc s at op lo hi t =
      grind (
        arith, keep_wr, keep_out, keep_pre, keep_in, subtract_byte-pc, subtract_byte_with_borrow-pc,
      )

  pub row_d-opbytes :
      (s : State W) (at op : ℕ)
      → s.pc < 65536
      → 0xd0 ≤ op
      → op < 0xe0
      → transfers op ≡ false
      → (row_d bus s at op).0.pc ≡ moved_on s op
  row_d-opbytes s at op fits lo hi t =
      ground (arith, row_d-pc s at op lo hi (kept_d op t), row_d_length op lo hi t)

  row_e-pc :
      (s : State W) (at op : ℕ)
      → 0xe0 ≤ op
      → op < 0xf0
      → transfers_e op ≡ false
      → (row_e bus s at op).0.pc ≡ (if op == 0xe6 || op == 0xee then u16 (s.pc + 1) else s.pc)
  unfolding row_e xthl logic_flags_a
  row_e-pc s at op lo hi t = grind (arith, keep_wr)

  pub row_e-opbytes :
      (s : State W) (at op : ℕ)
      → s.pc < 65536
      → 0xe0 ≤ op
      → op < 0xf0
      → transfers op ≡ false
      → (row_e bus s at op).0.pc ≡ moved_on s op
  row_e-opbytes s at op fits lo hi t =
      ground (arith, row_e-pc s at op lo hi (kept_e op t), row_e_length op lo hi t)

  row_f-pc :
      (s : State W) (at op : ℕ)
      → 0xf0 ≤ op
      → op < 0x100
      → transfers_f op ≡ false
      → (row_f bus s at op).0.pc ≡ (if op == 0xf6 || op == 0xfe then u16 (s.pc + 1) else s.pc)
  unfolding row_f pop_psw push_psw cpi logic_flags_a
  row_f-pc s at op lo hi t = grind (arith, keep_wr)

  pub row_f-opbytes :
      (s : State W) (at op : ℕ)
      → s.pc < 65536
      → 0xf0 ≤ op
      → op < 0x100
      → transfers op ≡ false
      → (row_f bus s at op).0.pc ≡ moved_on s op
  row_f-opbytes s at op fits lo hi t =
      ground (arith, row_f-pc s at op lo hi (kept_f op t), row_f_length op lo hi t)
