-- ===== src/Pmm.antt =====
-- Physical memory management (kern/pmm): one child for each layer, each over the one before.
pub mod MatIntro
pub mod MatOp
pub mod MatInit
pub mod Container
pub mod Tests
