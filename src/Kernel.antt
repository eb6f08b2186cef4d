-- ===== src/Kernel.antt =====
-- The kernel as the drivers see it: calls and their log, and the lock discipline.
pub mod Calls
pub mod Locks
pub mod Tally
pub use Calls.*
pub use Locks.*
pub use Tally.*
