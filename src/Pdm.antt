-- ===== src/Pdm.antt =====
-- The PDM driver module, pdm/driver: slots and card types, its device files, its start and stop.
pub mod Slots
pub mod Regs
pub mod CardFile
pub mod SysFunc
pub mod FastPath
pub mod Module
