-- ===== src/Go.antt =====
-- The parts of Go's standard library that the code computes with.
pub mod Strconv
pub mod Maps
pub mod Text
pub mod Time
