-- ===== src/Tests/StackTests.antt =====
-- src/i8085_exec.c: the stack, on a board whose first 4 KB are protected.
use tool_i8085_trace.Prelude.{◌≡◌, refl, arith}
use tool_i8085_trace.Cpu.Stack.{call, return_to_caller}
use tool_i8085_trace.Cpu.Stack.Laws.{pushed, return_to_caller-call}
use tool_i8085_trace.Cpu.Exec.Roundtrip.{hl, pop-push}
use tool_i8085_trace.Cpu.Step.{execute}
use tool_i8085_trace.Runtime.{board}
use tool_i8085_trace.Runtime.Rom.{board-Allows}
use tool_i8085_trace.Tests.BoardTests.{system, no_disk}

return_to_caller-call_example :
    return_to_caller (call (board no_disk) system 0x1234)
    ≡ record system { pc = 0x0202; memory = pushed system.memory 0x2000 0x02 0x02 }
return_to_caller-call_example =
    return_to_caller-call (board no_disk) system (omega arith)
      (board-Allows no_disk system 0x1fff (omega arith) refl)
      (board-Allows no_disk system 0x1ffe (omega arith) refl) 0x1234 (omega arith)

pop-push_example :
    execute (board no_disk) (execute (board no_disk) system 0x0200 0xe5).0 0x0201 0xe1
    ≡ (record system { memory = pushed system.memory 0x2000 0x01 0x00 }, 10)
pop-push_example =
    pop-push (board no_disk) system (omega arith)
      (board-Allows no_disk system 0x1fff (omega arith) refl)
      (board-Allows no_disk system 0x1ffe (omega arith) refl) hl 0x0200 0x0201 (omega arith)
      (omega arith) (omega arith)
