-- ===== src/Cpu.antt =====
-- The 8085 core: include/i8085_cpu.h, src/i8085_state.c and src/i8085_exec.c.
pub mod State
pub mod Alu
pub mod Stack
pub mod Interrupts
pub mod Exec
pub mod Step
pub mod Frame
pub mod Encoding
