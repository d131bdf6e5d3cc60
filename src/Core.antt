-- ===== src/Core.antt =====
-- The shared base of the program, app/core.
pub mod Errors
pub mod Retry
mod Examples
