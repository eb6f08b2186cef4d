-- ===== src/Frame.antt =====
-- The frame of a card's driver: template/ukcDrvFrame/src, in the build for the kernel.
pub mod State
pub mod Halves
pub mod File
pub mod Device
pub mod Module
pub mod Memory
pub mod Opening
pub mod Closing
pub mod Cards
pub mod Leaving
pub mod Reading
pub mod Resources
pub mod Starting
pub mod Mapping
pub mod Control
mod Tests
