-- ===== src/Buses.antt =====
-- The code under cpp/buses.
pub mod Lines
pub mod Bus
pub mod Tests
