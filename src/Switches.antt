-- ===== src/Switches.antt =====
-- Switches: app/firmware/src/io/digital/switches. The filter debounces the samples of a switch, the
-- mapper turns a change into signals, and the inputs join the two.
pub mod Filter
pub mod Settings
pub mod State
pub mod Messages
pub mod Mapper
pub mod Inputs
mod Tests
