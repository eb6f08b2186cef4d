-- ===== src/Pdm/Slots/Effects.antt =====
-- What the operations on a slot do to its entry, each written as one update.
use linux_drv.Prelude.{ap, arith, false, get_or-set_self, none, pos, set-set, ℕ, ℤ, ◌<◌, ◌≡◌}
use linux_drv.Card.{etin_slot_max, index, is_slot_err}
use linux_drv.Kernel.{Log}
use linux_drv.Pdm.Slots.Cards.{offline_call, offline_card}
use linux_drv.Pdm.Slots.Inv.{IsValid, index-lt, put_slot-IsValid, slot_at-IsSlot}
use linux_drv.Pdm.Slots.Irq.{disable_int, disable_int_reg, free_irq}
use linux_drv.Pdm.Slots.State.{SlotInfo, Slots, fresh_slot, put_slot, slot_at, type_at}

pub slot_at-put_slot :
    {s : Slots} (i : ℕ) (w : SlotInfo)
    → IsValid s
    → i < etin_slot_max
    → slot_at (put_slot s i w) i ≡ w
slot_at-put_slot {s} i w v h =
    get_or-set_self s.slots i w (fresh_slot i) (omega (arith, v.slots_len))

put_slot-put_slot :
    (s : Slots) (i : ℕ) (w w' : SlotInfo) → put_slot (put_slot s i w) i w' ≡ put_slot s i w'
put_slot-put_slot s i w w' = ap (λ xs. record s { slots = xs }) (set-set s.slots i w w')

-- `pdm_disable_int` on a good slot number.
pub disable_int-ok :
    (x : ℤ) (s : Slots) (l : Log)
    → is_slot_err x ≡ false
    → let i = index x in
      disable_int x s l
      ≡ (pos 0, put_slot s i (record (slot_at s i) { int_enabled = false }), disable_int_reg i l)
unfolding disable_int
disable_int-ok x s l h = rw h

-- A slot with no interrupt handler, its interrupt off.
abbrev pub quiet : SlotInfo → SlotInfo
quiet w = record w { isr_cb = none; isr_arg = 0; int_enabled = false }

-- `pdm_free_irq` on a good slot number: the mask is written and the handler is gone.
pub free_irq-ok :
    (x : ℤ) {s : Slots} (l : Log)
    → IsValid s
    → is_slot_err x ≡ false
    → free_irq x s l
      ≡ (put_slot s (index x) (quiet (slot_at s (index x))), disable_int_reg (index x) l)
unfolding free_irq
free_irq-ok x {s} l v h =
    let i = index x in
    let w = record (slot_at s i) { int_enabled = false } in
    rw (disable_int-ok x s l h, h, slot_at-put_slot i w v (index-lt x h)) (rw put_slot-put_slot)

-- A slot with no card.
abbrev pub vacant : SlotInfo → SlotInfo
vacant w = record w { type_info = none; isr_cb = none; isr_arg = 0; int_enabled = false }

-- `pdm_card_offline` of a card of the type `t`: its interrupt is masked (twice), its handler is
-- gone, its type's callback runs, and the slot is vacant.
pub offline_card-ok :
    (x : ℤ) (t : ℕ) {s : Slots} (l : Log)
    → IsValid s
    → is_slot_err x ≡ false
    → let i = index x in
      offline_card x t s l ≡ (
        put_slot s i (vacant (slot_at s i)),
        offline_call (type_at s t).cb_offline i (disable_int_reg i (disable_int_reg i l)),
      )
unfolding offline_card
offline_card-ok x t {s} l v h =
    let i = index x in
    let w = record (slot_at s i) { int_enabled = false } in
    let v1 = put_slot-IsValid i w v (ground (arith, slot_at-IsSlot i v (index-lt x h))) in
    rw (disable_int-ok x s l h, free_irq-ok x (disable_int_reg i l) v1 h)
      (simp (
        slot_at-put_slot i w v (index-lt x h),
        slot_at-put_slot i (quiet w) v (index-lt x h),
        set-set {0},
      ))
