-- ===== src/Ui.antt =====
-- src/ui.cpp: `tjc_event_clicked_handler`, what a touched button of the screen does, and the
-- functions of src/event.cpp that it calls. The panel is the state of the program as the buttons
-- see it; each page's buttons are a table in `Ui.Handler`.
pub mod Pages
pub mod Buttons
pub mod Panel
pub mod Motion
pub mod Store
pub mod Level
pub mod Print
pub mod Network
pub mod Footprint
pub mod Watch
pub mod Started
pub mod FirstRow
mod Tests
pub mod Handler
pub mod Diagram
