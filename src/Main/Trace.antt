-- ===== src/Main/Trace.antt =====
-- src/main.cpp: what `main` writes: the lines of the trace, the summary and the coverage file.
pub mod Laws
use tool_i8085_trace.Prelude.{
  length, ℕ, zero, suc, ◌+◌, ◌-◌, Bool, true, false, ◌||◌, List, [], ◌∷◌, ◌++◌, leb, ◌==◌, ◌!=◌,
  if◌then◌else◌, take, drop, codes, is_space, skip_spaces, hex_02, hex_04, decimal,
}
use tool_i8085_trace.Cpu.State.{State}
use tool_i8085_trace.Main.{
  TraceState, Run, HaltReason, max_reached, tracepoint_max, tracepoint_stop, stop, loop, hlt,
  pack_flags, registers,
}
use tool_i8085_trace.Disasm.Printing.{disassemble}

-- What stands before the first blank or tab: `strpbrk(p, " \t")`, or the whole text.
unfoldable pub word_of : List ℕ → List ℕ
word_of [] = []
word_of (ch ∷ chs) = let rest = word_of chs in if ch == b' ' || ch == 9 then [] else ch ∷ rest

-- `ExtractMnemonic`: the string that it leaves in a buffer of `out_len`, which is not 0.
unfoldable pub extract_mnemonic : List ℕ → ℕ → List ℕ
extract_mnemonic disasm out_len =
    let word = word_of (skip_spaces disasm) in
    if leb out_len (length word) then take (out_len - 1) word else word

-- The registers of a line, between commas.
unfoldable pub quoted : List ℕ → List ℕ
quoted [] = []
quoted (r ∷ []) = codes "\"" ++ hex_02 r ++ codes "\""
quoted (r ∷ s ∷ rs) = codes "\"" ++ hex_02 r ++ codes "\"," ++ quoted (s ∷ rs)

-- `OutputTrace`
unfoldable pub output_trace : TraceState → List ℕ → List ℕ → List ℕ
output_trace t mnemonic disasm =
    codes "{\"step\":"
    ++ decimal t.step
    ++ codes ",\"pc\":\""
    ++ hex_04 t.pc
    ++ codes "\",\"sp\":\""
    ++ hex_04 t.sp
    ++ codes "\",\"f\":\""
    ++ hex_02 t.flags
    ++ codes "\",\"clk\":"
    ++ decimal t.clocks
    ++ codes ",\"op\":\""
    ++ mnemonic
    ++ codes "\",\"asm\":\""
    ++ disasm
    ++ codes "\",\"r\":["
    ++ quoted t.registers
    ++ codes "]}\n"

-- The two texts of a line, for the instruction at PC: `disasmBuf` has 80 characters and
-- `mnemonicBuf` 16.
unfoldable pub trace_line : (ℕ → ℕ) → TraceState → List ℕ
trace_line memory t =
    let disasm = (disassemble memory t.pc 80).0 in
    output_trace t (extract_mnemonic disasm 16) disasm

unfoldable pub reason_text : HaltReason → List ℕ
reason_text max_reached = codes "max"
reason_text tracepoint_max = codes "tracepoint-max"
reason_text tracepoint_stop = codes "tracepoint-stop"
reason_text stop = codes "stop"
reason_text loop = codes "loop"
reason_text hlt = codes "hlt"

-- The line of `-S`.
unfoldable pub summary_line : {W : Type 0} → Run W → HaltReason → List ℕ
summary_line r reason =
    codes "{\"pc\":\""
    ++ hex_04 r.state.pc
    ++ codes "\",\"sp\":\""
    ++ hex_04 r.state.sp
    ++ codes "\",\"f\":\""
    ++ hex_02 (pack_flags r.state.cc)
    ++ codes "\",\"clk\":"
    ++ decimal r.stats.total_tstates
    ++ codes ",\"steps\":"
    ++ decimal r.step
    ++ codes ",\"halt\":\""
    ++ reason_text reason
    ++ codes "\",\"sod\":"
    ++ decimal (if r.state.sod_line != 0 then 1 else 0)
    ++ codes ",\"r\":["
    ++ quoted (registers r.state)
    ++ codes "]}\n"

-- The entries of the counters from `i` on that are not 0, a comma before each but the first.
unfoldable pub hits_from : (ℕ → List ℕ) → (ℕ → ℕ) → ℕ → ℕ → Bool → List ℕ
hits_from entry hits i zero first = []
hits_from entry hits i (suc more) first =
    let skipped : Bool = hits i == 0 in
    let rest = hits_from entry hits (i + 1) more (if skipped then first else false) in
    if skipped
    then rest
    else (if first then [] else codes ",")
      ++ entry i
      ++ codes "\",\"count\":"
      ++ decimal (hits i)
      ++ codes "}"
      ++ rest

-- `WriteCoverage`: the text of the file.
unfoldable pub write_coverage : ℕ → (ℕ → ℕ) → (ℕ → ℕ) → List ℕ
write_coverage steps pc_hits op_hits =
    codes "{\"steps\":"
    ++ decimal steps
    ++ codes ",\"pc_hits\":["
    ++ hits_from (λ i. codes "{\"pc\":\"" ++ hex_04 i) pc_hits 0 0x10000 true
    ++ codes "],\"op_hits\":["
    ++ hits_from (λ i. codes "{\"op\":\"" ++ hex_02 i) op_hits 0 0x100 true
    ++ codes "]}\n"
