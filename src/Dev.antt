-- ===== src/Dev.antt =====
-- Device drivers (kern/dev).
pub mod Mboot
pub mod Console
pub mod Video
pub mod Serial
pub mod Keyboard
pub mod Intr
pub mod Tests
