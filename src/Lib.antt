-- ===== src/Lib.antt =====
-- i8085-trace: an emulator of the Intel 8085 with the chips of a board around it.
--
-- The program's core steps a CPU struct one instruction at a time. On its way it calls four hooks:
-- every store asks `io_runtime_mem_write` for the byte to store, OUT calls `io_write`, and IN calls
-- `io_pre_read` before it takes the port's byte and `io_read` after. The run-time answers by calling
-- the plugins that are loaded, in load order, and the disk emulator. Each plugin is a chip with a
-- context of its own: a ROM, an 8255 PPI, an 8254 timer, a 6850 ACIA. A net of wires
-- and gates connects the chips' pins.
--
-- The parts and their files:
--   Prelude              tests on numbers, C's unsigned types, bit operations, lists
--   Cpu/State            include/i8085_cpu.h, src/i8085_state.c: State8085, Reset8085,
--                        setSIDLine, getSODLine, triggerInterrupt
--   Cpu/Alu              src/i8085_exec.c: parity, LogicFlagsA, ArithFlagsA, addByte,
--                        addByteWithCarry, subtractByte, subtractByteWithBorrow
--   Cpu/Stack            src/i8085_exec.c: mem_wr, call, returnToCaller, rst
--   Cpu/Interrupts       src/i8085_exec.c: checkInterrupts
--   Cpu/Exec             src/i8085_exec.c: the switch of Emulate8085Op, a definition `row_x` for
--                        the sixteen opcodes 0xX0 to 0xXF; Ops has what many cases repeat and
--                        Special the long ones
--   Cpu/Step             src/i8085_exec.c: Emulate8085Op around the switch
--   Cpu/Frame            what an instruction can change of memory and of the hooks' state
--   Cpu/Encoding         the opcodes by their bit fields, against the switch
--   Plugins/Config       plugins/: cfgValue, parseNum and truthy, which each plugin repeats
--   Plugins/Memory       plugins/memory.cpp
--   Plugins/Ppi          plugins/i8255.cpp
--   Plugins/Pit          plugins/pit8254.cpp
--   Plugins/Acia         plugins/mc6850.cpp, with its settings in Config
--   Runtime              src/io_runtime.cpp: load and unload, reset, and the four hooks
--   Runtime/Wiring       src/io_runtime.cpp: the pin table, rt_resolve, io_runtime_on_step and
--                        io_runtime_load_netlist
--   Net                  src/logic_net.h, src/logic_net.cpp: Net::step, with evalGate in Net/Gates
--                        and Net::parse and Net::bind in Net/Parser; in Net/Hosts and
--                        Net/Order what a step keeps and what it does not depend on
--   Disk                 src/disk_emu.cpp, include/disk_emu.h: the disk emulator
--   Main                 src/main.cpp: the run loop; in Main/Load the loading of a program,
--                        in Main/Arguments the loop over the options and in Main/Options
--                        their values, in Main/Dump the memory dumps, in Main/Trace the lines
--                        that are written; in Main/Keeps the run as a whole, in Main/Machine the
--                        program put together: the loop, the CPU, the globals of the run-time
--                        and the net
--   Channels             src/io_channel.cpp: the socket channel and the mirror in lines
--   Gdb                  src/gdb_stub.cpp: the codec and the framing, with Registers, Packets and
--                        Server below it
--   Disasm               src/i8085_disasm.c: the lengths of Disassemble8085Op, against the CPU row
--                        by row; in Templates and Printing the texts, in Mnemonics the same by
--                        bit fields, and in Assembler an assembler for them
--   Tests                concrete machines, and the theorems applied to them
--
-- How the code is read. Numbers are natural numbers, and every store into a C type of w bits takes
-- the remainder by 2 ^ w; a C subtraction adds the modulus first. A one-bit flag is a Bool. Memory
-- and ports are functions of the address, so a read has a value at any address: where C reads past
-- the end of the 64 KB buffer, the model reads the function there. A handler takes the struct and
-- returns the new one; `execute` also returns the T-states. The hooks are a record `Bus`, an
-- argument of the core, and their own state is the CPU's field `world`; `Runtime.board` is the bus
-- that the program is linked with. The disk emulator is a record `DiskApi`, an argument of the
-- run-time that `Disk.disk_api` fills, itself over a record `Stdio` of the host's file operations.
-- The loading of an ELF file takes the width of the host's `unsigned long`, in which it adds.
-- The run loop and the debugger take the bus and `io_runtime_on_step` as arguments; Main/Machine
-- fills both for the loop, with the net among the globals beside the plugins. The bytes
-- that the host's channels deliver are an argument of the ACIA's step, and what it sends is a log
-- in its context.
--
-- The one loop of the CPU, in `parity`, has eight rounds, for the eight bits of its argument, as
-- each call of the source has. The loop of the timer is by the number of ticks left, and takes as
-- many rounds as there are ticks, at most 0x40000 as in the source. The logic net settles in at most
-- sixteen passes, as in the source. The timer loop of main.cpp has a round for each T-state that has
-- passed and one more, since a period is at least 1. The run loop, the dump and the packets `c` and
-- `serve` take their rounds as an argument and say when these run out.
--
-- Not modelled: the usage text and the messages on stderr of src/main.cpp; `getopt_long` delivers the
-- options as a list. The opening of sockets, the console bridge, the board viewer, tracing and the
-- loading of shared objects are input and output of the host.
pub mod Prelude
pub mod Cpu
pub mod Plugins
pub mod Net
pub mod Runtime
pub mod Disasm
pub mod Disk
pub mod Main
pub mod Gdb
pub mod Channels
pub mod Tests
