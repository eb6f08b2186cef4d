-- ===== src/Pdm/Module.antt =====
-- The kernel module as a whole: pdm/driver/src/dmd.c.
pub mod Start
pub mod Kept
pub mod Stoppable
pub mod Failing
pub mod Outcome
pub mod Interrupt
mod Tests
