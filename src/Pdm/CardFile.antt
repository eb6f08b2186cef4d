-- ===== src/Pdm/CardFile.antt =====
-- The device file of the PDM driver: pdm/driver/src/file_op.c.
pub mod State
pub mod ReadPoll
pub mod OnOff
pub mod Queue
pub mod Control
pub mod Start
pub mod Failed
mod Tests
