-- ===== src/Exceptions.antt =====
-- Exception flow (soac-blockpy/src/passes).
pub mod Lower
pub mod Split
pub mod Populate
