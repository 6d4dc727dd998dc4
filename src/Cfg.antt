-- ===== src/Cfg.antt =====
-- Passes over the control-flow graph (soac-blockpy/src/block_py/cfg.rs).
pub mod Linearize
pub mod Fold
pub mod Prune
pub mod Relabel
