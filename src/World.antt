-- ===== src/World.antt =====
-- The world around the code.
pub mod Objects
pub mod Errors
pub mod Setup
pub mod Calls
pub mod Env
pub mod Monad
pub mod Client
pub mod Trace
pub mod Ending
pub mod Run
pub mod Alike
