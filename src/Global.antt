-- ===== src/Global.antt =====
-- Process-wide values of the firmware: app/firmware/src/global.
pub mod Bpm
pub mod MidiProgram
mod Tests
