-- ===== src/Dfu.antt =====
-- The firmware-update path of app/common/src/dfu.
pub mod Format
pub mod Backend
pub mod Flash
pub mod Writer
pub mod Parser
pub mod Upload
pub mod Reader
