-- ===== src/Shared.antt =====
-- The code under cpp/shared.
pub mod MemoryUtil
pub mod SimhUtil
pub mod S2pUtil
pub mod CommandMetaData
pub mod Tests
