-- ===== src/Tests/LengthTests.antt =====
-- src/i8085_disasm.c: the lengths, on the board.
use tool_i8085_trace.Prelude.{◌≡◌, refl, arith}
use tool_i8085_trace.Cpu.Step.{fetch_execute}
use tool_i8085_trace.Disasm.{opbytes}
use tool_i8085_trace.Disasm.Lengths.{fetch_execute-opbytes}
use tool_i8085_trace.Runtime.{board}
use tool_i8085_trace.Runtime.Pc.{board-KeepsPc}
use tool_i8085_trace.Tests.BoardTests.{system, no_disk}

-- LXI D, of three bytes.
fetch_execute-opbytes_example :
    (fetch_execute (board no_disk) (record system { pc = 0x0102 })).0.pc ≡ 0x0105
unfolding opbytes
fetch_execute-opbytes_example =
    fetch_execute-opbytes (board no_disk) (record system { pc = 0x0102 }) (board-KeepsPc no_disk)
      (omega arith) refl
