-- ===== src/Wifi.antt =====
-- src/MakerbaseWiFi.cpp: the scan results and the network pages of the screen.
pub mod Decode
pub mod Scan
pub mod Pages
mod Tests
