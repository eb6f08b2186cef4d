-- ===== src/Pdm/Slots/Cards.antt =====
-- Cards that come and go: `pdm_card_online` and `pdm_card_offline`.
use linux_drv.Prelude.{
  List, Option, get_or, if◌then◌else◌, is_neg, is_null, none, not, pos, some, ℕ, ℤ, ◌||◌, ◌∷◌,
}
use linux_drv.Card.{index, is_card_type_err, is_slot_err}
use linux_drv.Kernel.{Log, Os, card_type, eexist, einval, lock, offline, online, slot, unlock}
use linux_drv.Pdm.Slots.Irq.{disable_int, free_irq}
use linux_drv.Pdm.Slots.State.{Slots, put_slot, slot_at, type_at}

-- The callback of `pdm_card_online`, if the card's type has one: its answer, or 0.
unfoldable pub online_call : Os → ℕ → ℕ → Option ℕ → Log → ℤ × Log
online_call os i base none l = (pos 0, l)
online_call os i base (some cb) l = (os l (online cb i base), online cb i base ∷ l)

-- `pdm_card_online` behind its check, and with no card in the slot yet.
unfoldable pub online_empty : Os → List ℕ → ℕ → ℕ → Slots → Log → ℤ × Slots × Log
online_empty os chips i t s l =
    let (ret, l') = online_call os i (get_or chips i 0) (type_at s t).cb_online l in
    let s' = put_slot s i (record (slot_at s i) { type_info = some t }) in
    (ret, (if is_neg ret then s else s'), l')

-- `pdm_card_online`
unfoldable pub card_online : Os → List ℕ → ℤ → ℤ → Slots → Log → ℤ × Slots × Log
card_online os chips slot_no ct s l =
    let i = index slot_no in
    let l1 = lock (slot i) ∷ lock card_type ∷ l in
    let (ret, s', l2) = online_empty os chips i (index ct) s l1 in
    if is_slot_err slot_no || is_card_type_err ct
    then (einval, s, l)
    else if not (is_null (slot_at s i).type_info)
    then (eexist, s, unlock card_type ∷ unlock (slot i) ∷ l1)
    else (ret, s', unlock card_type ∷ unlock (slot i) ∷ l2)

-- The callback of `pdm_card_offline`, if the card's type has one.
unfoldable pub offline_call : Option ℕ → ℕ → Log → Log
offline_call none i l = l
offline_call (some cb) i l = offline cb i ∷ l

-- `pdm_card_offline` with a card in the slot, of the type `t`.
unfoldable pub offline_card : ℤ → ℕ → Slots → Log → Slots × Log
offline_card slot_no t s l =
    let i = index slot_no in
    let (_, s1, l1) = disable_int slot_no s l in
    let (s2, l2) = free_irq slot_no s1 l1 in
    (
      put_slot s2 i (record (slot_at s2 i) { type_info = none }),
      offline_call (type_at s2 t).cb_offline i l2,
    )

-- `pdm_card_offline`
unfoldable pub card_offline : ℤ → Slots → Log → Slots × Log
card_offline slot_no s l =
    let i = index slot_no in
    let l1 = lock (slot i) ∷ lock card_type ∷ l in
    if is_slot_err slot_no then (s, l) else elim (slot_at s i).type_info [
      | none ↦ (s, unlock card_type ∷ unlock (slot i) ∷ l1)
      | some t ↦
          let (s', l2) = offline_card slot_no t s l1 in
          (s', unlock card_type ∷ unlock (slot i) ∷ l2)
    ]
