-- ===== src/Encoders.antt =====
-- Encoder inputs: app/firmware/src/io/digital/encoders, with the signals of
-- app/firmware/src/signaling/signaling.h that they publish.
pub mod Filter
pub mod Signals
pub mod Mapper
pub mod Inputs
pub mod Remote
pub mod Configuration
mod Tests
