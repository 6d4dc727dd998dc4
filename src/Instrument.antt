-- ===== src/Instrument.antt =====
-- Instrumentation (soac-blockpy/src/passes/instrument.rs): counters, and the fragments that an
-- optimised instruction is replaced by.
pub mod Counters
pub mod Fragment
