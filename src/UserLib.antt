-- ===== src/UserLib.antt =====
-- The library of the user programs (user/lib).
pub mod Str
pub mod Printfmt
pub mod Numbers
pub mod Printf
pub mod Dummy
mod Tests
