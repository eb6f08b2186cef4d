-- ===== src/Daemon.antt =====
-- The process manager of the PDM, a daemon: pdm/src and pdm/include.
pub mod State
pub mod Runtime
pub mod Manager
pub mod Cards
pub mod Timers
pub mod Events
pub mod Inv
pub mod Filter
pub mod Live
pub mod Progress
pub mod Head
pub mod Stop
pub mod Ending
mod Samples
mod Tests
