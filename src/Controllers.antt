-- ===== src/Controllers.antt =====
-- The code under cpp/controllers.
pub mod State
pub mod Phases
pub mod Device
pub mod Command
pub mod Transfer
pub mod Process
pub mod Laws
pub mod Tests
