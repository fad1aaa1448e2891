-- ===== src/Osc.antt =====
-- The OSC protocol: app/firmware/src/protocol/osc.
pub mod Packet
pub mod Paths
pub mod Signals
pub mod Destinations
pub mod Node
mod Tests
