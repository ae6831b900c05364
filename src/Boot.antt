-- ===== src/Boot.antt =====
-- The boot loader's second part (boot/boot1).
pub mod Print
pub mod Disk
pub mod Main
mod Tests
