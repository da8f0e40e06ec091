-- ===== src/Update.antt =====
-- src/mks_update.cpp: the update from a USB stick and the transfer of the screen's firmware.
pub mod Transfer
pub mod Detect
pub mod Start
mod Tests
