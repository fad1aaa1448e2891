-- ===== src/Outputs.antt =====
-- Outputs: app/firmware/src/io/outputs. The mapper decides what a message does to each output.
pub mod Mapper
