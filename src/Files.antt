-- ===== src/Files.antt =====
-- src/mks_file.cpp: the file browser.
pub mod Listing
pub mod Show
pub mod Browser
mod Tests
