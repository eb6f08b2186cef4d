-- ===== src/Daemon/Head.antt =====
-- The doubly linked lists of pdm/include/cplist.h, with their pointers.
pub mod Heap
pub mod Chains
pub mod Refines
pub mod Entries
mod Tests
