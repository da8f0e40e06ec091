-- ===== src/Printer.antt =====
-- src/mks_printer.cpp: the printer's state, as Klipper's status messages report it.
pub mod Json
pub mod Objects
pub mod Mesh
pub mod Status
mod Tests
