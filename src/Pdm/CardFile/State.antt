-- ===== src/Pdm/CardFile/State.antt =====
-- The state behind the device file, its start and its end.
use linux_drv.Prelude.{
  Bool, List, [], false, if◌then◌else◌, is_neg, ltz, not, pos, suc, true, zero, ℕ, ℤ, ◌==◌, ◌||◌,
  ◌∷◌,
}
use linux_drv.Card.{etin_slot_max, etindev_null, index}
use linux_drv.Kernel.{Log, Os, cdev_add, cdev_del, device_create, device_destroy, einval, enomem}

-- `SDevMngDrvData_t`
pub record CardData : Type 0 where
  pub slot_id : ℕ
  pub dev_type : ℤ

abbrev pub card_data_size : ℕ
card_data_size = 8

-- `pdm_drv_main_t`. The two lists link entries of the array `cards`: they hold its indices.
pub record PdmDrv : Type 0 where
  pub m_slot : ℕ
  pub cards : List CardData
  pub hd_data : List ℕ
  pub hd_read : List ℕ
  pub has_device : Bool

-- `initCardData` for the `n` entries from `i` on, and the list they are appended to.
unfoldable pub init_cards : ℕ → ℕ → List CardData
init_cards i zero = []
init_cards i (suc n) = record { slot_id = i; dev_type = etindev_null } ∷ init_cards (suc i) n

unfoldable pub init_links : ℕ → ℕ → List ℕ
init_links i zero = []
init_links i (suc n) = i ∷ init_links (suc i) n

-- `pdm_drv_main_exit`; the minor number is the slot.
unfoldable pub pdm_main_exit : ℤ → PdmDrv → Log → PdmDrv × Log
pdm_main_exit x d l =
    if ltz x (pos 0) || not (index x == 0) then (d, l) else (d, cdev_del 0 ∷ device_destroy 0 ∷ l)

-- `pdm_drv_main_init`. The first test lets slot 0 pass only.
unfoldable pub pdm_main_init : Os → ℤ → PdmDrv → Log → ℤ × PdmDrv × Log
pdm_main_init os x d l =
    let fresh : PdmDrv = record {
      m_slot = index x;
      cards = init_cards 0 etin_slot_max;
      hd_data = init_links 0 etin_slot_max;
      hd_read = [];
      has_device = d.has_device;
    } in
    let added = os l (cdev_add 0) in
    let l1 = cdev_add 0 ∷ l in
    let created = os l1 (device_create 0) in
    let l2 = device_create 0 ∷ l1 in
    let no_cdev = pdm_main_exit x fresh l1 in
    let no_device = pdm_main_exit x (record fresh { has_device = false }) l2 in
    if ltz x (pos 0) || not (index x == 0)
    then (einval, d, l)
    else if is_neg added
    then (added, no_cdev.0, no_cdev.1)
    else if is_neg created
    then (enomem, no_device.0, no_device.1)
    else (added, record fresh { has_device = true }, l2)
