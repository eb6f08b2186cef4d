-- ===== src/Pdm/SysFunc/Device.antt =====
-- The state and the operations of the device file of the system functions. The chip's registers and
-- the codes of the commands are declared in headers that are not part of the repository: parameters.
use linux_drv.Prelude.{
  Bool, List, Option, false, if◌then◌else◌, is_neg, ltb, ltz, none, not, pos, some, suc, true, zero,
  ℕ, ℤ, ◌%◌, ◌+◌, ◌==◌, ◌^◌, ◌||◌, ◌∷◌,
}
use Prim.Native.Nat.{bit_or}
use linux_drv.Card.{index}
use linux_drv.Ioctl.{dispatch}
use linux_drv.Kernel.{
  Log, Os, cdev_add, cdev_del, device_create, device_destroy, einval, enoioctlcmd, enomem, lock,
  sys_func, unlock, wake_up,
}
use linux_drv.Pdm.CardFile.ReadPoll.{poll_in}

-- `sys_func_drv_main_t`; `hrm_offline_int` has 32 bits.
pub record SysFunc : Type 0 where
  pub m_slot : ℕ
  pub hrm_offline_int : ℕ
  pub has_device : Bool

-- The bit fields of `g_pdm_chip` that the file uses, for a type of register contents.
pub record SysChip (C : Type 0) : Type 0 where
  pub get_blank : C → ℕ
  pub set_blank : ℕ → C → C
  pub set_iic : ℕ → C → C

-- `sys_func_drv_main_exit`
unfoldable pub sys_func_exit : ℤ → Log → Log
sys_func_exit x l =
    if ltz x (pos 0) || not (index x == 1) then l else cdev_del 1 ∷ device_destroy 1 ∷ l

-- `sys_func_drv_main_init`
unfoldable pub sys_func_init : Os → ℤ → SysFunc → Log → ℤ × SysFunc × Log
sys_func_init os x d l =
    let fresh : SysFunc = record {
      m_slot = index x;
      hrm_offline_int = 0;
      has_device = d.has_device;
    } in
    let added = os l (cdev_add 1) in
    let l1 = cdev_add 1 ∷ l in
    let created = os l1 (device_create 1) in
    let l2 = device_create 1 ∷ l1 in
    if ltz x (pos 0) || not (index x == 1)
    then (einval, d, l)
    else if is_neg added
    then (added, fresh, sys_func_exit x l1)
    else if is_neg created
    then (enomem, record fresh { has_device = false }, sys_func_exit x l2)
    else (added, record fresh { has_device = true }, l2)

-- `sys_func_drv_read`: the result, the word for the user and the new state.
unfoldable pub sys_func_read : ℕ → SysFunc → Log → ℤ × Option ℕ × SysFunc × Log
sys_func_read n d l = if ltb n 4 then (einval, none, d, l) else (
  pos 4,
  some d.hrm_offline_int,
  record d { hrm_offline_int = 0 },
  unlock sys_func ∷ lock sys_func ∷ l,
)

-- `sys_func_offline_int_notify`
unfoldable pub offline_int_notify : ℕ → SysFunc → Log → SysFunc × Log
offline_int_notify int_bmp d l =
    let d' : SysFunc = record d { hrm_offline_int = bit_or d.hrm_offline_int int_bmp } in
    let l1 = lock sys_func ∷ l in
    let l2 = if d'.hrm_offline_int == 0 then l1 else wake_up ∷ l1 in (d', unlock sys_func ∷ l2)

-- `sys_func_drv_poll`
unfoldable pub sys_func_poll : SysFunc → Log → ℕ × Log
sys_func_poll d l =
    ((if d.hrm_offline_int == 0 then 0 else poll_in), unlock sys_func ∷ lock sys_func ∷ l)

-- `sys_func_drv_write`. `buf` is the user's memory; `parse` is `simple_strtoul` with base 0.
unfoldable pub sys_func_write :
    {C : Type 0}
    → SysChip C
    → ((ℕ → ℕ) → ℕ)
    → ℕ
    → (ℕ → ℕ)
    → SysFunc
    → C
    → Log
    → ℤ × SysFunc × C × Log
sys_func_write chip parse n buf d r l =
    let arg = parse (λ k. buf (k + 1)) % 2 ^ 32 in
    let (d', l') = offline_int_notify arg d l in
    if buf 0 == b'i'
    then (pos n, d', r, l')
    else if buf 0 == b'b'
    then (pos n, d, chip.set_blank arg r, l)
    else (pos n, d, r, l)

-- The functions of the table, in the order of the commands: hrm_get, hrm_tmp_set, hrm_tmp_get,
-- blank_get, blank_set, opp_online_get and iic_sel. Of the result the second part is what is written
-- to the argument, if anything is.
unfoldable pub sys_func_fun : {C : Type 0} → SysChip C → ℕ → ℕ → C → ℤ × Option ℕ × C
sys_func_fun chip zero arg r = (pos 0, some 2, r)
sys_func_fun chip (suc (suc (suc zero))) arg r = (pos 0, some (chip.get_blank r), r)
sys_func_fun chip (suc (suc (suc (suc zero)))) arg r = (pos 0, none, chip.set_blank arg r)
sys_func_fun chip (suc (suc (suc (suc (suc (suc zero)))))) arg r = (pos 0, none, chip.set_iic arg r)
sys_func_fun chip _ arg r = (pos 0, none, r)

-- `sys_func_drv_ioctl`; `reqs` are the codes of TIN_SYS_FUNC_IOC_*.
unfoldable pub sys_func_ioctl :
    {C : Type 0} → SysChip C → (ℕ → ℕ) → List ℕ → ℕ → ℕ → C → Log → ℤ × Option ℕ × C × Log
sys_func_ioctl chip nr_of reqs cmd arg r l = elim (dispatch nr_of reqs cmd) [
  | none ↦ (enoioctlcmd, none, r, l)
  | some k ↦
      let (x, out, r') = sys_func_fun chip k arg r in
      (x, out, r', unlock sys_func ∷ lock sys_func ∷ l)
]
