-- ===== src/Disasm/Printing.antt =====
-- src/i8085_disasm.c: `disasm_printf` and the text and length of `Disassemble8085Op`. The buffer is
-- the characters in front of its NUL and the room that is left; vsnprintf prints a whole text or cuts
-- it to the room less the NUL.
use tool_i8085_trace.Prelude.{
  length, get_elem?, ℕ, ◌+◌, ◌-◌, Option, none, some, List, [], ◌++◌, leb, ◌==◌, if◌then◌else◌,
  take,
}
use tool_i8085_trace.Disasm.{opbytes}
use tool_i8085_trace.Disasm.Templates.{Template, templates, text}

-- The string in the buffer, and `disasm_len`.
pub record Out : Type 0 where
  pub written : List ℕ
  pub disasm_len : ℕ

unfoldable pub disasm_printf : Out → List ℕ → Out
disasm_printf o t =
    if o.disasm_len == 0
    then o
    else if leb o.disasm_len (length t)
    then record { written = o.written ++ take (o.disasm_len - 1) t; disasm_len = 1 }
    else record { written = o.written ++ t; disasm_len = o.disasm_len - length t }

unfoldable pub print_case : Out → Option Template → ℕ → ℕ → Out
print_case o none b1 b2 = o
print_case o (some c) b1 b2 = disasm_printf o (text c b1 b2)

-- `Disassemble8085Op`: the string that it leaves in a buffer of `out_len`, and `opbytes`.
unfoldable pub disassemble : (ℕ → ℕ) → ℕ → ℕ → List ℕ × ℕ
disassemble codebuffer pc out_len =
    let op = codebuffer pc in
    (
      (print_case (record { written = []; disasm_len = out_len }) (get_elem? templates op)
          (codebuffer (pc + 1)) (codebuffer (pc + 2))).written,
      opbytes op,
    )
