-- ===== src/Ui/Buttons.antt =====
-- include/ui.h: the numbers of the buttons, by the groups of pages of `Ui.Handler`.
pub mod Setup
pub mod Files
pub mod Printing
pub mod Move
pub mod Levels
pub mod Wireless
pub mod Service
pub mod Offset
pub mod Popup
pub mod Loading
pub mod Servers
