-- ===== src/Cpu/Encoding.antt =====
-- The encoding of the 8085's instruction set, stated apart from the switch of
-- src/i8085_exec.c: three bits of the opcode name a register, an operation or a condition.
pub mod Moves
pub mod Arithmetic
pub mod Branches
pub mod Fields
