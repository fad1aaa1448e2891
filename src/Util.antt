-- ===== src/Util.antt =====
-- Helpers of the firmware: app/firmware/src/util.
pub mod IncDec
