-- ===== src/Pdm/Module/Interrupt.antt =====
-- The interrupt of the module.
use linux_drv.Prelude.{List, arith, length, ℕ, ◌<◌, ◌↔◌, ◌≡◌}
use linux_drv.Kernel.{Log}
use linux_drv.Pdm.Module.Start.{pdm_drv_isr}
use linux_drv.Pdm.Slots.Interrupts.{handle_slot_int_lem, hits, scheduled}
use linux_drv.Pdm.Slots.Isr.{handle_slot_int}
use linux_drv.Pdm.Slots.State.{Slots}

-- pdm_drv_isr answers IRQ_HANDLED exactly when it scheduled work for some slot, and IRQ_NONE exactly
-- when no slot's bit was set.
pub pdm_drv_isr_lem :
    (int_bits : ℕ) (bmps : List ℕ) (s : Slots) (l : Log)
    → let (r, s', l') = pdm_drv_isr int_bits bmps s l in
      ((r ≡ 1) ↔ (scheduled l < scheduled l'))
      × ((r ≡ 0) ↔ (hits int_bits bmps 0 (length s.slots) ≡ 0))
unfolding pdm_drv_isr
pdm_drv_isr_lem int_bits bmps s l =
    let (ret, s', l') = handle_slot_int int_bits bmps s l in
    let h = handle_slot_int_lem int_bits bmps s l in
    (
      (λ e. ground (arith, h.0, h.2, e), λ lt. ground (arith, h.0, h.2, lt)),
      (λ e. ground (arith, h.0, h.2, e), λ e. ground (arith, h.0, h.2, e)),
    )
