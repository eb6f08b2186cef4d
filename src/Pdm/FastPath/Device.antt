-- ===== src/Pdm/FastPath/Device.antt =====
-- The state of the slot files, and the operations on a slot's callbacks.
use linux_drv.Prelude.{
  Bool, List, Option, [], get_or, if◌then◌else◌, none, not, pos, set, some, suc, zero, ℕ, ℤ, ◌==◌,
  ◌||◌, ◌∷◌,
}
use linux_drv.Card.{etin_slot_self, index, is_slot_err}
use linux_drv.Ioctl.{Codec, dispatch, ioc_write}
use linux_drv.Kernel.{Log, Os, callback, einval, enoioctlcmd, enosys, lock, sifp, unlock}

-- `sifp_info_t`. A callback is a function pointer or null.
pub record SifpInfo : Type 0 where
  pub read_cb : Option ℕ
  pub read_arg : ℕ
  pub set_led_red_cb : Option ℕ
  pub set_led_yellow_cb : Option ℕ
  pub set_led_green_cb : Option ℕ
  pub set_led_arg : ℕ
  pub en_inventory_cb : Option ℕ
  pub en_inventory_arg : ℕ

-- `s_null_info`
abbrev pub null_info : SifpInfo
null_info = record {
  read_cb = none;
  read_arg = 0;
  set_led_red_cb = none;
  set_led_yellow_cb = none;
  set_led_green_cb = none;
  set_led_arg = 0;
  en_inventory_cb = none;
  en_inventory_arg = 0;
}

-- `sifp_drv_main_t`: the device and the character device, by their minor numbers.
pub record SifpDrv : Type 0 where
  pub m_cdev : ℕ
  pub m_device : Option ℕ
  pub slot_info : SifpInfo

abbrev pub no_drv : SifpDrv
no_drv = record { m_cdev = 0; m_device = none; slot_info = null_info }

-- `s_sifp_drv`
abbrev pub SifpDrvs : Type 0
SifpDrvs = List SifpDrv

abbrev pub drv_at : SifpDrvs → ℕ → SifpDrv
drv_at ds i = get_or ds i no_drv

-- `s_is_sifp_slot_err`: of the slots only SELF has a file name.
abbrev pub is_sifp_slot_err : ℤ → Bool
is_sifp_slot_err x = is_slot_err x || not (index x == etin_slot_self)

-- `sifp_reg_for_online`
unfoldable pub sifp_reg : ℤ → SifpInfo → SifpDrvs → Log → ℤ × SifpDrvs × Log
sifp_reg x info ds l =
    let i = index x in
    if is_sifp_slot_err x then (einval, ds, l) else (
      pos 0,
      set ds i (record (drv_at ds i) { slot_info = info }),
      unlock (sifp i) ∷ lock (sifp i) ∷ l,
    )

-- `sifp_unreg_for_offline`
unfoldable pub sifp_unreg : ℤ → SifpDrvs → Log → SifpDrvs × Log
sifp_unreg x ds l =
    let i = index x in
    if is_sifp_slot_err x then (ds, l) else (
      set ds i (record (drv_at ds i) { slot_info = null_info }),
      unlock (sifp i) ∷ lock (sifp i) ∷ l,
    )

-- `cb ? cb(arg, value) : -ENOSYS`
unfoldable pub call_cb : Os → Option ℕ → ℕ → ℕ → Log → ℤ × Log
call_cb os none arg v l = (enosys, l)
call_cb os (some f) arg v l = (os l (callback f arg v), callback f arg v ∷ l)

-- `sifp_drv_read` of the file of the slot `i`, with a buffer of `n` bytes.
unfoldable pub sifp_read : Os → ℕ → ℕ → SifpDrvs → Log → ℤ × Log
sifp_read os i n ds l =
    let info = (drv_at ds i).slot_info in
    let (r, l') = call_cb os info.read_cb info.read_arg n (lock (sifp i) ∷ l) in
    (r, unlock (sifp i) ∷ l')

-- `TIN_SIFP_IOC_*`
unfoldable pub sifp_reqs : Codec → List ℕ
sifp_reqs c =
    c.ioc ioc_write 4 b's' 0
    ∷ c.ioc ioc_write 4 b's' 1
    ∷ c.ioc ioc_write 4 b's' 2
    ∷ c.ioc ioc_write 4 b's' 3
    ∷ []

-- The callback and the argument of the table's functions `sifp_ioctl_led_g_set`,
-- `sifp_ioctl_led_y_set`, `sifp_ioctl_led_r_set` and `sifp_ioctl_inventory_en`.
abbrev pub sifp_cb : ℕ → SifpInfo → Option ℕ × ℕ
sifp_cb zero s = (s.set_led_green_cb, s.set_led_arg)
sifp_cb (suc zero) s = (s.set_led_yellow_cb, s.set_led_arg)
sifp_cb (suc (suc zero)) s = (s.set_led_red_cb, s.set_led_arg)
sifp_cb (suc (suc (suc k))) s = (s.en_inventory_cb, s.en_inventory_arg)

-- `sifp_drv_ioctl`; `op` is what the argument points to.
unfoldable pub sifp_ioctl : Codec → Os → ℕ → ℕ → ℕ → SifpDrvs → Log → ℤ × Log
sifp_ioctl c os i cmd op ds l = elim (dispatch c.nr_of (sifp_reqs c) cmd) [
  | none ↦ (enoioctlcmd, l)
  | some k ↦
      let (f, arg) = sifp_cb k (drv_at ds i).slot_info in
      let (r, l') = call_cb os f arg op (lock (sifp i) ∷ l) in (r, unlock (sifp i) ∷ l')
]
