-- ===== src/Pdm/Slots.antt =====
-- pdm/driver/src/pdm_drv_ext.c: card types register callbacks, cards come and go in slots, and
-- slots deliver interrupts.
pub mod State
pub mod Registry
pub mod Irq
pub mod Cards
pub mod Isr
pub mod Inv
pub mod Effects
pub mod Reach
pub mod Mutual
pub mod Balance
pub mod Callbacks
pub mod Lifecycle
pub mod Registration
pub mod Interrupts
pub mod Masked
pub mod MaskedOps
mod Tests
