-- ===== src/Pdm/Slots/Inv.antt =====
-- The invariant of the slot table of pdm_drv_ext.c, kept by every exported operation.
use linux_drv.Prelude.{
  AllFrom, AllFrom-get_or, AllFrom-set, List, Option, arith, false, is_null, length, length-set,
  none, some, true, ℕ, ℤ, ◌<◌, ◌≡◌,
}
use native.Mathlib.Nat.{zero-add}
use linux_drv.Card.{etin_slot_max, etindev_max, index, is_card_type_err, is_slot_err}
use linux_drv.Kernel.{Log, Os}
use linux_drv.Pdm.Slots.Cards.{card_online, online_call, online_empty}
use linux_drv.Pdm.Slots.Irq.{disable_int, enable_int, free_irq, request_irq}
use linux_drv.Pdm.Slots.State.{
  CardTypeInfo, SlotInfo, Slots, ctor_mng_info, fresh_slot, put_slot, slot_at,
}

abbrev pub IsBelow : Option ℕ → ℕ → Type 0
IsBelow none n = Unit
IsBelow (some t) n = t < n

-- An entry of `s_slot_info`: it knows its index, points into the type table, and has an interrupt
-- handler only while it has a card.
pub record IsSlot (i : ℕ) (v : SlotInfo) : Type 0 where
  pub knows_index : v.slot_idx ≡ i
  pub type_in : IsBelow v.type_info etindev_max
  pub isr_needs_card : is_null v.type_info ≡ true → is_null v.isr_cb ≡ true

-- The two callbacks of a card type come and go together.
abbrev pub IsPaired : ℕ → CardTypeInfo → Type 0
IsPaired i c = is_null c.cb_online ≡ is_null c.cb_offline

pub record IsValid (s : Slots) : Type 0 where
  pub types_len : length s.types ≡ etindev_max
  pub vsns_len : length s.vsns ≡ etindev_max
  pub slots_len : length s.slots ≡ etin_slot_max
  pub paired : AllFrom IsPaired 0 s.types
  pub slots_ok : AllFrom IsSlot 0 s.slots

pub ctor_mng_info-IsValid : IsValid ctor_mng_info
ctor_mng_info-IsValid = ground arith

pub index-lt : (x : ℤ) → is_slot_err x ≡ false → index x < etin_slot_max
index-lt x h = ground arith

pub type_index-lt : (x : ℤ) → is_card_type_err x ≡ false → index x < etindev_max
type_index-lt x h = ground arith

pub slot_at-IsSlot : {s : Slots} (i : ℕ) → IsValid s → i < etin_slot_max → IsSlot i (slot_at s i)
slot_at-IsSlot {s} i v h =
    rw zero-add at (AllFrom-get_or IsSlot 0 i s.slots (fresh_slot i) v.slots_ok (omega arith))

pub put_slot-IsValid :
    {s : Slots} (i : ℕ) (w : SlotInfo) → IsValid s → IsSlot i w → IsValid (put_slot s i w)
put_slot-IsValid {s} i w v h = record {
  types_len = v.types_len;
  vsns_len = v.vsns_len;
  slots_len = rw length-set v.slots_len;
  paired = v.paired;
  slots_ok = AllFrom-set IsSlot 0 i s.slots w v.slots_ok (rw zero-add h);
}

-- Asking for an interrupt keeps the invariant: the slot must have a card.
pub request_irq-IsValid :
    (x : ℤ) (f : Option ℕ) (arg : ℕ) {s : Slots} (l : Log)
    → IsValid s
    → IsValid (request_irq x f arg s l).1
unfolding request_irq
request_irq-IsValid x none arg l v = v
request_irq-IsValid x (some f) arg {s} l v = ground (
  arith,
  slot_at-IsSlot (index x) v,
  index-lt x,
  put_slot-IsValid (index x) (record (slot_at s (index x)) { isr_arg = arg; isr_cb = some f }) v,
)

-- Unmasking and masking a slot keep the invariant.
pub enable_int-IsValid : (x : ℤ) {s : Slots} (l : Log) → IsValid s → IsValid (enable_int x s l).1
unfolding enable_int
enable_int-IsValid x {s} l v = ground (
  arith,
  slot_at-IsSlot (index x) v,
  index-lt x,
  put_slot-IsValid (index x) (record (slot_at s (index x)) { int_enabled = true }) v,
)

pub disable_int-IsValid : (x : ℤ) {s : Slots} (l : Log) → IsValid s → IsValid (disable_int x s l).1
unfolding disable_int
disable_int-IsValid x {s} l v = ground (
  arith,
  slot_at-IsSlot (index x) v,
  index-lt x,
  put_slot-IsValid (index x) (record (slot_at s (index x)) { int_enabled = false }) v,
)

drop_isr : SlotInfo → SlotInfo
drop_isr w = record w { isr_cb = none; isr_arg = 0 }

pub free_irq-IsValid : (x : ℤ) {s : Slots} (l : Log) → IsValid s → IsValid (free_irq x s l).0
unfolding free_irq drop_isr
free_irq-IsValid x {s} l v =
    let s1 = (disable_int x s l).1 in
    let v1 = disable_int-IsValid x l v in
    ground (
      arith,
      v1,
      slot_at-IsSlot (index x) v1,
      index-lt x,
      put_slot-IsValid (index x) (drop_isr (slot_at s1 (index x))) v1,
    )

-- A card that comes in keeps the invariant, whatever its callback answers.
pub card_online-IsValid :
    (os : Os) (chips : List ℕ) (x ct : ℤ) {s : Slots} (l : Log)
    → IsValid s
    → IsValid (card_online os chips x ct s l).1
unfolding card_online online_empty online_call
card_online-IsValid os chips x ct {s} l v = ground (
  arith,
  slot_at-IsSlot (index x) v,
  index-lt x,
  type_index-lt ct,
  put_slot-IsValid (index x) (record (slot_at s (index x)) { type_info = some (index ct) }) v,
)
