-- ===== src/Disasm/Lengths.antt =====
-- src/i8085_disasm.c against src/i8085_exec.c: the lengths of the instructions.
use tool_i8085_trace.Prelude.{ℕ}
use tool_i8085_trace.Prelude.{
  ◌+◌, ◌-◌, ◌%◌, ◌≤◌, ◌<◌, ◌≡◌, refl, ◌∙◌, Bool, true, false, arith, ltb, if◌then◌else◌, u16,
}
use tool_i8085_trace.Prelude.{ℕ}
use tool_i8085_trace.Cpu.State.{State, Bus}
use tool_i8085_trace.Cpu.Alu.{}
use tool_i8085_trace.Cpu.Stack.{mem_wr}
use tool_i8085_trace.Cpu.Exec.Ops.{}
use tool_i8085_trace.Cpu.Exec.Special.{}
use tool_i8085_trace.Cpu.Step.{execute, fetch_execute}
use tool_i8085_trace.Disasm.{is_one_of, opbytes, with_word, with_byte}
use tool_i8085_trace.Disasm.Transfers.{transfers, moved_on}
use tool_i8085_trace.Disasm.LowRows.{
  row_0-opbytes, row_1-opbytes, row_2-opbytes, row_3-opbytes, row_4-opbytes, row_5-opbytes,
  row_6-opbytes, row_7-opbytes,
}
use tool_i8085_trace.Disasm.HighRows.{
  row_8-opbytes, row_9-opbytes, row_a-opbytes, row_b-opbytes, row_c-opbytes, row_d-opbytes,
  row_e-opbytes, row_f-opbytes,
}

-- The hooks leave PC alone.
pub record KeepsPc {W : Type 0} (bus : Bus W) : Type 0 where
  pub on_mem_wr : (s : State W) (a v : ℕ) → (mem_wr bus s a v).pc ≡ s.pc
  pub on_io_write : (s : State W) (a v : ℕ) → (bus.io_write s a v).pc ≡ s.pc
  pub on_io_pre_read : (s : State W) (a : ℕ) → (bus.io_pre_read s a).pc ≡ s.pc
  pub on_io_read : (s : State W) (a v : ℕ) → (bus.io_read s a v).pc ≡ s.pc

picked :
    {A : Type 0} (P : A → Type 0) (b : Bool) (x y : A)
    → (b ≡ true → P x)
    → (b ≡ false → P y)
    → P (if b then x else y)
picked P true x y f g = f refl
picked P false x y f g = g refl

-- A test on a number, with what it tells on each side.
pick :
    {A : Type 0} (P : A → Type 0) (op k : ℕ) (x y : A)
    → (op < k → P x)
    → (k ≤ op → P y)
    → P (if ltb op k then x else y)
pick P op k x y f g = picked P (ltb op k) x y (λ e. f (ground arith)) (λ e. g (ground arith))

module _ {W : Type 0} (bus : Bus W)
    (keep_wr : (s : State W) (a v : ℕ) → (mem_wr bus s a v).pc ≡ s.pc)
    (keep_out : (s : State W) (a v : ℕ) → (bus.io_write s a v).pc ≡ s.pc)
    (keep_pre : (s : State W) (a : ℕ) → (bus.io_pre_read s a).pc ≡ s.pc)
    (keep_in : (s : State W) (a v : ℕ) → (bus.io_read s a v).pc ≡ s.pc) where
  execute-opbytes :
      (s : State W) (at op : ℕ)
      → s.pc < 65536
      → op < 256
      → transfers op ≡ false
      → (execute bus s at op).0.pc ≡ moved_on s op
  unfolding execute
  execute-opbytes s at op fits byte t =
      let P : State W × ℕ → Type 0 = λ r. r.0.pc ≡ moved_on s op in
      pick P op 0x10 _ _ (λ hi. row_0-opbytes bus keep_wr keep_out keep_pre keep_in s at op fits hi)
        (λ lo1.
          pick P op 0x20 _ _
            (λ hi. row_1-opbytes bus keep_wr keep_out keep_pre keep_in s at op fits lo1 hi)
            (λ lo2.
              pick P op 0x30 _ _
                (λ hi. row_2-opbytes bus keep_wr keep_out keep_pre keep_in s at op fits lo2 hi)
                (λ lo3.
                  pick P op 0x40 _ _
                    (λ hi. row_3-opbytes bus keep_wr keep_out keep_pre keep_in s at op fits lo3 hi)
                    (λ lo4.
                      pick P op 0x50 _ _
                        (λ hi.
                          row_4-opbytes bus keep_wr keep_out keep_pre keep_in s at op fits lo4 hi)
                        (λ lo5.
                          pick P op 0x60 _ _
                            (λ hi.
                              row_5-opbytes bus keep_wr keep_out keep_pre keep_in s at op fits lo5
                                hi)
                            (λ lo6.
                              pick P op 0x70 _ _
                                (λ hi.
                                  row_6-opbytes bus keep_wr keep_out keep_pre keep_in s at op fits
                                    lo6 hi)
                                (λ lo7.
                                  pick P op 0x80 _ _
                                    (λ hi.
                                      row_7-opbytes bus keep_wr keep_out keep_pre keep_in s at op
                                        fits lo7 hi)
                                    (λ lo8.
                                      pick P op 0x90 _ _
                                        (λ hi.
                                          row_8-opbytes bus keep_wr keep_out keep_pre keep_in s at
                                            op fits lo8 hi)
                                        (λ lo9.
                                          pick P op 0xa0 _ _
                                            (λ hi.
                                              row_9-opbytes bus keep_wr keep_out keep_pre keep_in s
                                                at op fits lo9 hi)
                                            (λ lo10.
                                              pick P op 0xb0 _ _
                                                (λ hi.
                                                  row_a-opbytes bus keep_wr keep_out keep_pre
                                                    keep_in s at op fits lo10 hi)
                                                (λ lo11.
                                                  pick P op 0xc0 _ _
                                                    (λ hi.
                                                      row_b-opbytes bus keep_wr keep_out keep_pre
                                                        keep_in s at op fits lo11 hi)
                                                    (λ lo12.
                                                      pick P op 0xd0 _ _
                                                        (λ hi.
                                                          row_c-opbytes bus keep_wr keep_out
                                                            keep_pre keep_in s at op fits lo12 hi t)
                                                        (λ lo13.
                                                          pick P op 0xe0 _ _
                                                            (λ hi.
                                                            row_d-opbytes bus keep_wr keep_out
                                                            keep_pre keep_in s at op fits lo13 hi t)
                                                            (λ lo14.
                                                            pick P op 0xf0 _ _
                                                            (λ hi.
                                                            row_e-opbytes bus keep_wr keep_out
                                                            keep_pre keep_in s at op fits lo14 hi t)
                                                            (λ lo15.
                                                            row_f-opbytes bus keep_wr keep_out
                                                            keep_pre keep_in s at op fits lo15 byte
                                                            t)))))))))))))))

length_pos : (a b : Bool) → 0 < (if a then 3 else if b then 2 else 1)
length_pos a b = ground arith

opbytes_pos : (op : ℕ) → 0 < opbytes op
unfolding opbytes
opbytes_pos op = length_pos (is_one_of op with_word) (is_one_of op with_byte)

one_by_one : (p n : ℕ) → 0 < n → (u16 (p + 1) + (n - 1)) % 65536 ≡ u16 (p + n)
one_by_one p n h = omega arith

-- The disassembler and the CPU agree on the length of every instruction that is not a jump, call,
-- return or restart: where the hooks leave PC alone, and a byte in memory at PC is the opcode of such
-- an instruction, fetching and executing it moves PC on by `opbytes`, modulo 2 ^ 16.
pub fetch_execute-opbytes :
    {W : Type 0} (bus : Bus W) (s : State W)
    → KeepsPc bus
    → s.memory s.pc < 256
    → transfers (s.memory s.pc) ≡ false
    → (fetch_execute bus s).0.pc ≡ u16 (s.pc + opbytes (s.memory s.pc))
unfolding fetch_execute
fetch_execute-opbytes bus s k byte t =
    let op = s.memory s.pc in
    execute-opbytes bus k.on_mem_wr k.on_io_write k.on_io_pre_read k.on_io_read
      (record s { pc = u16 (s.pc + 1) }) s.pc op (omega arith) byte t
    ∙ one_by_one s.pc (opbytes op) (opbytes_pos op)
