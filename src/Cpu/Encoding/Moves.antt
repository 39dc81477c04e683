-- ===== src/Cpu/Encoding/Moves.antt =====
-- src/i8085_exec.c, opcodes 0x40 to 0x7F: MOV r1, r2 with its registers in the opcode, and HLT.
use tool_i8085_trace.Prelude.{ℕ, ◌+◌, ◌*◌, ◌≡◌, refl, ◌||◌, if◌then◌else◌}
use tool_i8085_trace.Cpu.State.{State, Bus}
use tool_i8085_trace.Cpu.Step.{execute}
use tool_i8085_trace.Cpu.Exec.Ops.{store_hl}
use tool_i8085_trace.Cpu.Exec.Move.{row_4, row_5, row_6, row_7}
use tool_i8085_trace.Cpu.Encoding.Fields.{
  Reg, b, c, d, e, h, l, m, a, reg_code, is_memory, read_reg, write_reg,
}

-- The move that 01DDDSSS stands for; the code of a move from memory to memory is HLT.
abbrev pub moved : {W : Type 0} → Bus W → Reg → Reg → State W → State W × ℕ
moved bus m m s = (record s { hlt_enable = 1 }, 5)
moved bus dst src s =
    (write_reg bus dst s (read_reg src s), if is_memory dst || is_memory src then 7 else 4)

-- Every opcode 0x40 to 0x7F, by its two register fields: MOV between registers and memory, with its
-- T-states, and HLT in the place of MOV M, M.
pub execute-moved :
    {W : Type 0} (bus : Bus W) (dst src : Reg) (s : State W) (at : ℕ)
    → execute bus s at (0x40 + 8 * reg_code dst + reg_code src) ≡ moved bus dst src s
unfolding execute row_4 row_5 row_6 row_7 store_hl
execute-moved bus b b s at = refl
execute-moved bus c b s at = refl
execute-moved bus d b s at = refl
execute-moved bus e b s at = refl
execute-moved bus h b s at = refl
execute-moved bus l b s at = refl
execute-moved bus m b s at = refl
execute-moved bus a b s at = refl
execute-moved bus _ _ s at = refl
