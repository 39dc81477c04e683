-- ===== src/Runtime/Pc.antt =====
-- src/io_runtime.cpp: PC under the hooks of the board.
use tool_i8085_trace.Prelude.{ap, ◌∙◌, u8}
use tool_i8085_trace.Prelude.{refl, arith, if◌then◌else◌}
use tool_i8085_trace.Cpu.Stack.{mem_wr}
use tool_i8085_trace.Runtime.{DiskApi, io_write, io_pre_read, io_read, board}
use tool_i8085_trace.Runtime.Rom.{pre_read_all_io}
use tool_i8085_trace.Disasm.Lengths.{KeepsPc}

-- The board is among the hooks that the lengths of instructions are proved for.
pub board-KeepsPc : {D : Type 0} (api : DiskApi D) → KeepsPc (board api)
unfolding mem_wr io_write io_pre_read io_read
board-KeepsPc api = record {
  on_mem_wr = λ s a v. refl;
  on_io_write = λ s a v. refl;
  on_io_pre_read = λ s a.
      ap (λ t. t.pc)
        (pre_read_all_io s.world.plugins
          (if api.active s.world.disk
            then record s { io = api.on_io_pre_read s.world.disk s.io (u8 a) }
            else s)
          (u8 a))
      ∙ ground arith;
  on_io_read = λ s a v. refl;
}
