-- ===== src/Buses/Bus.antt =====
-- cpp/buses/bus.cpp and bus.h: the signals and the hand-shakes of both sides.
pub mod Signals
pub mod Handshake
pub mod Laws
pub mod Transfers
