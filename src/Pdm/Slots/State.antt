-- ===== src/Pdm/Slots/State.antt =====
-- The static data of pdm/driver/src/pdm_drv_ext.c, and how `pdm_ctor_mng_info` sets it up.
use linux_drv.Prelude.{
  ℕ, zero, suc, Bool, false, Option, none, List, [], ◌∷◌, replicate, get_or, set,
}
use linux_drv.Card.{etindev_max, etin_slot_max}

-- `struct card_type_info_t`: function pointers, by their names.
pub record CardTypeInfo : Type 0 where
  pub cb_online : Option ℕ
  pub cb_offline : Option ℕ

-- `struct drv_vsn_info_t`
pub record DrvVsnInfo : Type 0 where
  pub src_vsn : Option ℕ
  pub udf_vsn : Option ℕ

-- `struct slot_info_t`. `type_info` is a pointer into `types`; the two flags are the bits
-- BIT_WORK_IDX and BIT_INT_ENABLED.
pub record SlotInfo : Type 0 where
  pub slot_idx : ℕ
  pub type_info : Option ℕ
  pub isr_cb : Option ℕ
  pub isr_arg : ℕ
  pub work_idx : Bool
  pub int_enabled : Bool

-- The file's static arrays.
pub record Slots : Type 0 where
  pub types : List CardTypeInfo
  pub vsns : List DrvVsnInfo
  pub slots : List SlotInfo

abbrev pub null_type : CardTypeInfo
null_type = record { cb_online = none; cb_offline = none }

abbrev pub null_vsn : DrvVsnInfo
null_vsn = record { src_vsn = none; udf_vsn = none }

abbrev pub fresh_slot : ℕ → SlotInfo
fresh_slot i = record {
  slot_idx = i;
  type_info = none;
  isr_cb = none;
  isr_arg = 0;
  work_idx = false;
  int_enabled = false;
}

abbrev pub type_at : Slots → ℕ → CardTypeInfo
type_at s t = get_or s.types t null_type

abbrev pub slot_at : Slots → ℕ → SlotInfo
slot_at s i = get_or s.slots i (fresh_slot i)

abbrev pub put_slot : Slots → ℕ → SlotInfo → Slots
put_slot s i v = record s { slots = set s.slots i v }

-- `pdm_init_all_slot_info`: `n` entries from index `i` on.
abbrev pub init_slots : ℕ → ℕ → List SlotInfo
init_slots i zero = []
init_slots i (suc n) = fresh_slot i ∷ init_slots (suc i) n

-- `pdm_ctor_mng_info`
abbrev pub ctor_mng_info : Slots
ctor_mng_info = record {
  types = replicate etindev_max null_type;
  vsns = replicate etindev_max null_vsn;
  slots = init_slots 0 etin_slot_max;
}
