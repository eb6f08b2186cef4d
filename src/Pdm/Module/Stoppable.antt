-- ===== src/Pdm/Module/Stoppable.antt =====
-- The states of the slots from which the module's end runs through.
use linux_drv.Prelude.{get_or, Bool-cases, List, inl, inr, is_neg, pos, refl, some, sym, ℕ, ◌≡◌}
use mathlib.Core.Path.{subst}
use linux_drv.Kernel.{Log, Os}
use linux_drv.Pdm.Module.Kept.{IsKept}
use linux_drv.Pdm.Module.Start.{stop_slots}
use linux_drv.Pdm.Slots.Cards.{card_offline, card_online, offline_call, offline_card}
use linux_drv.Pdm.Slots.Irq.{disable_int, free_irq}
use linux_drv.Pdm.Slots.Lifecycle.{card_online_lem, cb_answer, occupied}
use linux_drv.Pdm.Slots.Registration.{registered}
use linux_drv.Pdm.Slots.Registry.{
  reg_checked, reg_each, reg_visit, reg_online_offline_cb, unreg_checked, unreg_each,
  unreg_online_offline_cb,
}
use linux_drv.Pdm.Slots.State.{DrvVsnInfo, Slots, ctor_mng_info, put_slot, slot_at}

abbrev pub IsStoppable : Os → Slots → Type 0
IsStoppable os s = (l : Log) → (p : Slots × Log) × (stop_slots s l ≡ some p) × IsKept os l p.1

pub ctor_mng_info-IsStoppable : (os : Os) → IsStoppable os ctor_mng_info
unfolding stop_slots card_offline unreg_online_offline_cb unreg_checked unreg_each
ctor_mng_info-IsStoppable os l = (_, refl, (refl, refl, refl, refl, refl))

pub registered-IsStoppable :
    (os : Os) (on off : ℕ) (vsn : DrvVsnInfo)
    → IsStoppable os (registered 0 on off vsn ctor_mng_info)
unfolding stop_slots card_offline unreg_online_offline_cb unreg_checked unreg_each
registered-IsStoppable os on off vsn l = (_, refl, (refl, refl, refl, refl, refl))

abbrev with_card : ℕ → ℕ → DrvVsnInfo → Slots
with_card on off vsn =
    let s = registered 0 on off vsn ctor_mng_info in put_slot s 0 (occupied 0 (slot_at s 0))

with_card-IsStoppable :
    (os : Os) (on off : ℕ) (vsn : DrvVsnInfo) → IsStoppable os (with_card on off vsn)
unfolding stop_slots card_offline unreg_online_offline_cb unreg_checked unreg_each offline_card
    disable_int free_irq offline_call
with_card-IsStoppable os on off vsn l = (_, refl, (refl, refl, refl, refl, refl))

pub reg-IsKept :
    (os : Os) (chips : List ℕ) (on off : ℕ) (vsn : DrvVsnInfo) (l : Log)
    → IsKept os l
        (reg_online_offline_cb os chips (pos 0) (some on) (some off) vsn ctor_mng_info l).2
unfolding reg_online_offline_cb reg_checked reg_each reg_visit
reg-IsKept os chips on off vsn l = (refl, refl, refl, refl, refl)

pub card_online-IsStoppable :
    (os : Os) (chips : List ℕ) (on off : ℕ) (vsn : DrvVsnInfo) (l : Log)
    → IsStoppable os
        (card_online os chips (pos 0) (pos 0) (registered 0 on off vsn ctor_mng_info) l).1
card_online-IsStoppable os chips on off vsn l =
    let s = registered 0 on off vsn ctor_mng_info in
    let r = cb_answer os (some on) 0 (get_or chips 0 0) l in
    subst (IsStoppable os) (sym (card_online_lem os chips (pos 0) (pos 0) s l refl refl).1)
      (elim (Bool-cases (is_neg r)) [
        | inl e ↦ rw e (registered-IsStoppable os on off vsn)
        | inr e ↦ rw e (with_card-IsStoppable os on off vsn)
      ])
