-- ===== src/SendMsg.antt =====
-- src/send_msg.cpp: the commands for the serial screen.
pub mod Frame
pub mod Control
pub mod Storage
pub mod Widget
pub mod Calls
pub mod Download
mod Tests
