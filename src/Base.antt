-- ===== src/Base.antt =====
-- The code under cpp/base.
pub mod Device
pub mod PrimaryDevice
pub mod Tests
