-- ===== src/Ir.antt =====
-- The block IR of the compiler: labels and ids, blocks and their parts.
pub mod Label
pub mod Block
pub mod Structured
pub mod Table
pub mod Layout
pub mod Targets
pub mod Builders
pub mod NameGen
pub mod Ids
pub mod ExceptionParam
