-- ===== src/KernLib.antt =====
-- The kernel's library (kern/lib).
pub mod Str
pub mod Printfmt
pub mod Dprintf
pub mod Pmap
pub mod Elf
pub mod Seg
pub mod Trap
pub mod Start
pub mod Debug
pub mod Monitor
mod Tests
mod PrintTests
