-- ===== src/Frame/Device.antt =====
-- A card that comes and goes: `udf_online` and `udf_offline` of udf_drv.c, `udf_main_init` and
-- `udf_main_exit` of file_op.c.
use linux_drv.Prelude.{
  Bool, Option, false, get_or, if◌then◌else◌, is_neg, none, not, pos, some, ℕ, ℤ, ◌==◌, ◌||◌, ◌∷◌,
}
use linux_drv.Card.{index, is_slot_err}
use linux_drv.Frame.Halves.{bh_offline, bh_online}
use linux_drv.Frame.State.{Udf, UdfDrv, dev_at, malloced, put_dev, put_hw_addr}
use linux_drv.Kernel.{
  Log, Os, cdev_add, cdev_del, device_create, device_destroy, eexist, einval, enomem, kfree,
  kmalloc,
}
use linux_drv.Pdm.FastPath.Device.{SifpInfo}

-- `IS_OS_PTR_INVALID`: the null pointer alone.
abbrev pub is_os_ptr_invalid : ℤ → Bool
is_os_ptr_invalid (pos n) = n == 0
is_os_ptr_invalid _ = false

-- `udf_main_exit` of the device of the slot.
unfoldable pub main_exit : ℕ → Log → Log
main_exit i l = kfree ∷ cdev_del i ∷ device_destroy i ∷ l

-- `udf_main_init`
unfoldable pub main_init : Os → ℕ → Log → Option UdfDrv × Log
main_init os i l =
    let l1 = kmalloc ∷ l in
    let l2 = cdev_add i ∷ l1 in
    let l3 = device_create i ∷ l2 in
    let device = os l2 (device_create i) in
    if not (malloced os l)
    then (none, l1)
    else if is_neg (os l1 (cdev_add i))
    then (none, main_exit i l2)
    else if is_os_ptr_invalid device
    then (none, main_exit i l3)
    else (some (record { m_device = device; can_read = false; m_data = none }), l3)

-- `udf_online` behind `udf_main_init`, with the hardware address recorded.
unfoldable pub online_made : (ℕ → SifpInfo) → ℕ → Udf → Option UdfDrv × Log → ℤ × Udf × Log
online_made sifp_of i u (none, l) = (enomem, put_hw_addr i 0 u, l)
online_made sifp_of i u (some d, l) = bh_online sifp_of i (put_dev i (some d) u) l

-- `udf_online`
unfoldable pub udf_online : Os → (ℕ → SifpInfo) → ℤ → ℕ → Udf → Log → ℤ × Udf × Log
udf_online os sifp_of slot base u l =
    let i = index slot in
    if is_slot_err slot || base == 0
    then (einval, u, l)
    else if not (get_or u.hw_addrs i 0 == 0)
    then (eexist, u, l)
    else online_made sifp_of i (put_hw_addr i base u) (main_init os i l)

-- The end of the device of `udf_offline`, if there is one.
unfoldable pub end_dev : ℕ → Option UdfDrv → Log → Log
end_dev i none l = l
end_dev i (some d) l = main_exit i l

-- `udf_offline`
unfoldable pub udf_offline : ℤ → Udf → Log → Udf × Log
udf_offline slot u l =
    let i = index slot in
    let (u1, l1) = bh_offline i u l in
    if is_slot_err slot
    then (u, l)
    else (put_hw_addr i 0 (put_dev i none u1), end_dev i (dev_at u1 i) l1)
