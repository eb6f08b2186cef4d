-- ===== src/Daemon/Inv.antt =====
-- What holds of the daemon's lists and entries between two events.
pub mod Defs
pub mod Moves
pub mod Ops
pub mod Managers
pub mod Cards
pub mod Ticks
pub mod Reach
pub mod Settled
pub mod Restart
pub mod CardsSettled
pub mod Boot
pub mod NoFault
