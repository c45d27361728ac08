-- ===== src/Firmware.antt =====
-- internal/firmware/service.go: the order of firmware versions.
pub mod Version
mod Examples
