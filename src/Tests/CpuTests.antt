-- ===== src/Tests/CpuTests.antt =====
-- src/i8085_exec.c: the theorems at a concrete machine.
use tool_i8085_trace.Prelude.{
  ◌+◌, ◌*◌, ◌≡◌, refl, ◌≢◌, ◌↔◌, true, false, some, arith, leb, ◌==◌, bit, agree, word,
}
use tool_i8085_trace.Tests.{cpu, free_bus, no_stats, rom}
use tool_i8085_trace.Prelude.{ℕ}
use tool_i8085_trace.Cpu.State.{State, Bus}
use tool_i8085_trace.Cpu.Alu.{
  update_carry, parity, add_byte, add_byte_with_carry, subtract_byte, subtract_byte_with_borrow,
}
use tool_i8085_trace.Cpu.Alu.Laws.{
  IsSum, IsDifference, add_byte_lem, add_byte_with_carry_lem, subtract_byte_lem,
  subtract_byte_with_borrow_lem, parity_xor,
}
use tool_i8085_trace.Cpu.Stack.{mem_wr, push_word}
use tool_i8085_trace.Cpu.Stack.Laws.{pushed}
use tool_i8085_trace.Cpu.Interrupts.{check_interrupts}
use tool_i8085_trace.Cpu.Interrupts.Laws.{rst75, served, check_interrupts-served}
use tool_i8085_trace.Cpu.Exec.Ops.{sbb_to, adc_to}
use tool_i8085_trace.Cpu.Exec.Special.{
  daa, dsub, arhl, rdel, rar, ral, pop_psw, push_psw, flags_of, psw_of,
}
use tool_i8085_trace.Cpu.Exec.Special.Decimal.{IsPacked, decimal, daa-adc_to}
use tool_i8085_trace.Cpu.Exec.Roundtrip.{bc, de, hl, flags_of-psw_of, pop_psw-push_psw}
use tool_i8085_trace.Cpu.Exec.Words.{
  pair, inx_word, dcx_word, dad_word, HasBytes, biased16, dsub_word, arhl_word, rdel_word, rar-ral,
}
use tool_i8085_trace.Cpu.Step.{execute, emulate_op, run_instruction}
use tool_i8085_trace.Cpu.Step.States.{InRange, execute_states}
use tool_i8085_trace.Cpu.Step.Halt.{emulate_op_idle, emulate_op_woken}
use tool_i8085_trace.Cpu.Step.Enable.{ei-ret}
use tool_i8085_trace.Cpu.Frame.{Keeps, emulate_op-Keeps}
use tool_i8085_trace.Cpu.Encoding.Fields.{Reg, Operation, Condition, sbb, m, operate, nz, holds}
use tool_i8085_trace.Cpu.Encoding.Moves.{execute-moved}
use tool_i8085_trace.Cpu.Encoding.Arithmetic.{execute-operate, immediate, execute-immediate}
use tool_i8085_trace.Cpu.Encoding.Branches.{execute-conditions}
use tool_i8085_trace.Cpu.Encoding.Fields as F

check_interrupts-served_example :
    check_interrupts free_bus (record cpu { int_enable = 1 })
    ≡ served free_bus (record cpu { int_enable = 1 }) (some rst75)
check_interrupts-served_example = check_interrupts-served free_bus (record cpu { int_enable = 1 })

-- Hooks that leave their world alone.
abbrev still_bus : Bus ℕ
still_bus = record {
  mem_write = λ s a v. (s, v);
  io_write = λ s a v. s;
  io_pre_read = λ s a. s;
  io_read = λ s a v. s;
}

still_bus-Keeps : Keeps {X = ℕ} still_bus (λ mem w. w)
unfolding mem_wr
still_bus-Keeps = record {
  on_mem_wr = λ s a v. refl;
  on_io_write = λ s a v. refl;
  on_io_pre_read = λ s a. refl;
  on_io_read = λ s a v. refl;
}

emulate_op-Keeps_example : (emulate_op still_bus cpu no_stats).state.world ≡ 0
emulate_op-Keeps_example = emulate_op-Keeps still_bus (λ mem w. w) still_bus-Keeps cpu no_stats

subtract_byte_with_borrow_example :
    IsDifference 0x10 0x20 1 (subtract_byte_with_borrow cpu 0x10 0x20 update_carry)
subtract_byte_with_borrow_example =
    subtract_byte_with_borrow_lem cpu 0x10 0x20 (omega arith) (omega arith)

add_byte_with_carry_example : IsSum 0x70 0x20 1 (add_byte_with_carry cpu 0x70 0x20 update_carry)
add_byte_with_carry_example = add_byte_with_carry_lem cpu 0x70 0x20 (omega arith) (omega arith)

add_byte_example : IsSum 0xf0 0x20 0 (add_byte cpu 0xf0 0x20 update_carry)
add_byte_example = add_byte_lem cpu 0xf0 0x20 (omega arith) (omega arith)

subtract_byte_example : IsDifference 0x80 0x01 0 (subtract_byte cpu 0x80 0x01 update_carry)
subtract_byte_example = subtract_byte_lem cpu 0x80 0x01 (omega arith) (omega arith)

daa-adc_to_example :
    IsPacked (daa (adc_to cpu 0x47 4).0).a
    × (decimal (daa (adc_to cpu 0x47 4).0).a + 100 * bit (daa (adc_to cpu 0x47 4).0).cc.cy ≡ 86)
daa-adc_to_example = daa-adc_to cpu 0x47 (omega arith, omega arith) (omega arith, omega arith)

pop_psw-push_psw_example :
    pop_psw (push_psw free_bus cpu) ≡ record cpu { memory = pushed rom 0x2000 0x38 (psw_of cpu.cc) }
pop_psw-push_psw_example =
    pop_psw-push_psw free_bus cpu (omega arith) (omega arith) (λ m sp v h. refl) (λ m sp v h. refl)

flags_of-psw_of_example : flags_of (psw_of cpu.cc) ≡ cpu.cc
flags_of-psw_of_example = flags_of-psw_of cpu.cc

execute-moved_example : execute free_bus cpu 0x0100 0x7e ≡ (record cpu { a = 0x27 }, 7)
unfolding word
execute-moved_example = execute-moved free_bus F.a m cpu 0x0100

execute-operate_example : execute free_bus cpu 0x0100 0x9e ≡ operate sbb cpu 0x27 7
unfolding word sbb_to
execute-operate_example = execute-operate free_bus sbb m cpu 0x0100

execute-immediate_example : execute free_bus cpu 0x0100 0xfe ≡ (immediate F.cmp cpu 0xc9, 7)
execute-immediate_example = execute-immediate free_bus F.cmp cpu 0x0100 (omega arith) (omega arith)

execute-conditions_example :
    (execute free_bus cpu 0x0100 0xc0 ≡ (record cpu { pc = 0x1234; sp = 0x2002 }, 12))
    × (execute free_bus cpu 0x0100 0xc2 ≡ (record cpu { pc = 0x11c9 }, 10))
    × (execute free_bus cpu 0x0100 0xc4
        ≡ (record cpu { pc = 0x11c9; sp = 0x1ffe; memory = pushed rom 0x2000 0x01 0x02 }, 9))
    × (execute free_bus cpu 0x0100 0xc7
        ≡ (record cpu { pc = 0; sp = 0x1ffe; memory = pushed rom 0x2000 0x01 0x00 }, 12))
unfolding push_word mem_wr word
execute-conditions_example = execute-conditions free_bus nz cpu 0x0100

ei-ret_example :
    (emulate_op free_bus (emulate_op free_bus cpu no_stats).state no_stats).state
    ≡ record cpu { pc = 0x1234; sp = 0x2002; int_enable = 1; int_enable_delay = 0 }
unfolding word
ei-ret_example = ei-ret free_bus cpu no_stats no_stats refl refl refl refl refl

emulate_op_idle_example :
    emulate_op free_bus (record cpu { hlt_enable = 1 }) no_stats
    ≡ record { state = record cpu { hlt_enable = 1 }; stats = no_stats; halted = 1 }
emulate_op_idle_example =
    emulate_op_idle free_bus (record cpu { hlt_enable = 1 }) no_stats (omega arith) refl

cpu-HasBytes : HasBytes cpu
cpu-HasBytes = (omega arith, omega arith, omega arith, omega arith, omega arith, omega arith)

inx_word_example :
    let t = (execute free_bus cpu 0x0100 0x03).0 in
    (pair bc t ≡ 0) × (t.cc ≡ record (cpu.cc) { x5 = true })
inx_word_example = inx_word free_bus bc cpu 0x0100 cpu-HasBytes

dcx_word_example :
    let t = (execute free_bus cpu 0x0100 0x1b).0 in
    (pair de t ≡ 0x8000) × (t.cc ≡ record (cpu.cc) { x5 = false })
dcx_word_example = dcx_word free_bus de cpu 0x0100 cpu-HasBytes

dad_word_example :
    let t = (execute free_bus cpu 0x0100 0x09).0 in
    (pair hl t + 65536 * bit t.cc.cy ≡ 0x13455) × (t.cc ≡ record (cpu.cc) { cy = t.cc.cy })
dad_word_example = dad_word free_bus bc cpu 0x0100 cpu-HasBytes

dsub_word_example :
    let t = dsub cpu in
    (pair hl t + 0xffff ≡ 0x3456 + 65536 * bit t.cc.cy)
    × ((t.cc.v ≡ false) ↔ (biased16 (pair hl t) + 0x7fff ≡ 0xb456 + 0x8000))
    × (t.cc.z ≡ (pair hl t == 0))
    × (t.cc.s ≡ leb 0x8000 (pair hl t))
dsub_word_example = dsub_word cpu cpu-HasBytes

arhl_word_example : 2 * biased16 (pair hl (arhl cpu)) + bit (arhl cpu).cc.cy ≡ 0xb456 + 0x8000
arhl_word_example = arhl_word cpu cpu-HasBytes

rdel_word_example :
    let t = rdel cpu in
    (pair de t + 65536 * bit t.cc.cy ≡ 0x10003)
    × ((t.cc.v ≡ false) ↔ (leb 0x8000 (pair de t) ≡ true))
rdel_word_example = rdel_word cpu cpu-HasBytes

rar-ral_example : rar (ral cpu) ≡ cpu
rar-ral_example = rar-ral cpu (omega arith)

abbrev sleeper : State ℕ
sleeper = record cpu { hlt_enable = 1; int_enable = 1 }

sleeper-halted : (served free_bus sleeper (some rst75)).0.hlt_enable ≢ 0
unfolding push_word mem_wr word
sleeper-halted = omega arith

emulate_op_woken_example :
    emulate_op free_bus sleeper no_stats
    ≡ run_instruction free_bus
        (record ((served free_bus sleeper (some rst75)).0) { hlt_enable = 0 })
        no_stats
emulate_op_woken_example = emulate_op_woken free_bus sleeper no_stats rst75 refl sleeper-halted

execute_states_example : InRange (execute free_bus cpu 0x0100 0xc4).1
execute_states_example = execute_states free_bus cpu 0x0100 0xc4

parity_xor_example : parity 0x35 ≡ agree (parity 0x34) (parity 0x01)
parity_xor_example = parity_xor 0x34 0x01 (omega arith) (omega arith)
