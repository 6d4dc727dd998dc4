-- ===== src/Examples.antt =====
-- Small programs, and the theorems at them.
pub mod Linear
pub mod Blocks
pub mod Dumps
pub mod Fragments
pub mod Calls
pub mod Plans
pub mod Runtime
pub mod Tries
