-- ===== src/Pdm/FastPath.antt =====
-- The slot information fast path: pdm/driver/src/slot_info_fast_path.c.
pub mod Device
pub mod Start
pub mod Callbacks
pub mod Balance
mod Tests
