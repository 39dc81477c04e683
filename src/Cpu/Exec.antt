-- ===== src/Cpu/Exec.antt =====
-- src/i8085_exec.c: the switch of `Emulate8085Op`, in four files by opcode.
pub mod Ops
pub mod Special
pub mod Load
pub mod Move
pub mod Arith
pub mod Control
pub mod Roundtrip
pub mod Words
