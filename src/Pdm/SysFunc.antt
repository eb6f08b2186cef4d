-- ===== src/Pdm/SysFunc.antt =====
-- The device file of the system functions: pdm/driver/src/sys_func_set.c.
pub mod Device
pub mod Pending
pub mod Control
mod Tests
