-- ===== src/Fpga.antt =====
-- Loading the FPGA of a card: template/ukcDrvFrame/src/fpga/fpga_loader.c.
pub mod Loader
pub mod Outcome
mod Tests
