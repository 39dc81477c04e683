-- ===== src/Plugins.antt =====
-- plugins/: the peripherals, one module each. A callback gets the plugin's context and the CPU
-- state; one that changes either returns it.
pub mod Config
pub mod Memory
pub mod Ppi
pub mod Pit
pub mod Acia
