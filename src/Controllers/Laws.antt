-- ===== src/Controllers/Laws.antt =====
-- Theorems on the controller.
pub mod Lines
pub mod Lawful
pub mod Invariant
pub mod Reach
pub mod Errors
pub mod Primary
