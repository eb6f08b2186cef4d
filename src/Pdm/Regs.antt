-- ===== src/Pdm/Regs.antt =====
-- Raw register access: pdm/driver/src/pdm_drv_hw.c and pdm/driver/src/regs_info_dev.c.
pub mod Hw
pub mod Raw
pub mod RegsInfo
pub mod Window
pub mod Mapping
pub mod Seek
mod Tests
