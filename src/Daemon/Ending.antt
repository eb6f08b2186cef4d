-- ===== src/Daemon/Ending.antt =====
-- How `CProcessPdm::Stop` ends the daemon: the signals, the processes that are reaped, and what is
-- left.
pub mod Signals
pub mod Reaping
pub mod Outcome
