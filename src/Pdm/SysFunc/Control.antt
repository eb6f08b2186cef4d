-- ===== src/Pdm/SysFunc/Control.antt =====
-- The locks, the start and the commands of the file of the system functions.
use linux_drv.Prelude.{
  Bool-cases, List, Option-cases, [], ap, arith, false, get_or, inl, inr, is_neg, length, ltb, pos,
  refl, some, suc, true, zero, ℕ, ◌%◌, ◌+◌, ◌<◌, ◌==◌, ◌^◌, ◌∙◌, ◌∷◌, ◌≡◌, ◌≢◌,
}
use Prim.Native.Nat.{bit_or}
use linux_drv.Ioctl.{IsNumbered, dispatch, dispatch_iff}
use linux_drv.Kernel.{
  Log, Os, cdev_add, cdev_del, device_create, device_destroy, enomem, held, lock, sys_func, unlock,
}
use linux_drv.Pdm.SysFunc.Device.{
  SysChip, SysFunc, offline_int_notify, sys_func_exit, sys_func_fun, sys_func_init, sys_func_ioctl,
  sys_func_poll, sys_func_read, sys_func_write,
}
use linux_drv.Pdm.SysFunc.Pending.{Op, ioctl, notify, poll, read, sys_func_step, write}

notify-held :
    (b : ℕ) (d : SysFunc) (l : Log) → held l ≡ some [] → held (offline_int_notify b d l).1 ≡ some []
unfolding offline_int_notify
notify-held b d l h = elim (Bool-cases (bit_or d.hrm_offline_int b == 0)) [
  | inl e ↦ rw (e, h) refl
  | inr e ↦ rw (e, h) refl
]

-- Every operation of the file, entered with no lock held, returns with no lock held and takes none
-- twice.
pub sys_func_step-held :
    {C : Type 0} (chip : SysChip C) (parse : (ℕ → ℕ) → ℕ) (nr_of : ℕ → ℕ) (reqs : List ℕ) (o : Op)
    (s : SysFunc × C × Log)
    → held s.2 ≡ some []
    → held (sys_func_step chip parse nr_of reqs o s).2 ≡ some []
unfolding sys_func_step sys_func_read sys_func_write sys_func_poll sys_func_ioctl
sys_func_step-held chip parse nr_of reqs (read n) s h = elim (Bool-cases (ltb n 4)) [
  | inl e ↦ rw e h
  | inr e ↦ rw (e, h) refl
]
sys_func_step-held chip parse nr_of reqs (write n buf) s h = elim (Bool-cases (buf 0 == b'i')) [
  | inl e ↦ rw (e, sys_func_write) (notify-held (parse (λ k. buf (k + 1)) % 2 ^ 32) s.0 s.2 h)
  | inr e ↦ elim (Bool-cases (buf 0 == b'b')) [
    | inl f ↦ rw (e, f, sys_func_write) h
    | inr f ↦ rw (e, f, sys_func_write) h
  ]
]
sys_func_step-held chip parse nr_of reqs poll s h = rw h refl
sys_func_step-held chip parse nr_of reqs (ioctl cmd arg) s h =
    elim (Option-cases (dispatch nr_of reqs cmd)) [
      | inl e ↦ rw (e, sys_func_ioctl) h
      | inr (k, e) ↦ rw (e, sys_func_ioctl) (rw h refl)
    ]
sys_func_step-held chip parse nr_of reqs (notify b) s h = notify-held b s.0 s.2 h

-- sys_func_drv_main_init of the minor number 1 succeeds exactly when cdev_add and device_create both
-- do: then it answers what cdev_add did, nothing is pending, and sys_func_drv_main_exit undoes the two
-- calls in the reverse order. Where one of them fails, it answers an error and the device is destroyed
-- and deleted, created or not.
pub sys_func_init_lem :
    (os : Os) (d : SysFunc) (l : Log)
    → let l1 : Log = cdev_add 1 ∷ l in
      let l2 : Log = device_create 1 ∷ l1 in
      let ret = (sys_func_init os (pos 1) d l).0 in
      let d' = (sys_func_init os (pos 1) d l).1 in
      let l' = (sys_func_init os (pos 1) d l).2 in
      (is_neg (os l (cdev_add 1)) ≡ true
        → (ret ≡ os l (cdev_add 1)) × (l' ≡ cdev_del 1 ∷ device_destroy 1 ∷ l1))
      × (is_neg (os l (cdev_add 1)) ≡ false
          → (is_neg (os l1 (device_create 1)) ≡ true
              → (ret ≡ enomem)
                × (l' ≡ cdev_del 1 ∷ device_destroy 1 ∷ l2)
                × (d'.has_device ≡ false))
            × (is_neg (os l1 (device_create 1)) ≡ false
                → (ret ≡ os l (cdev_add 1))
                  × (d' ≡ record { m_slot = 1; hrm_offline_int = 0; has_device = true })
                  × (sys_func_exit (pos 1) l' ≡ cdev_del 1 ∷ device_destroy 1 ∷ l2)))
unfolding sys_func_init sys_func_exit
sys_func_init_lem os d l = (
  (λ e. rw e (refl, refl)),
  (λ e. ((λ f. rw (e, f) (refl, refl, refl)), (λ f. rw (e, f) (refl, refl, refl)))),
)

fun_keeps_blank :
    {C : Type 0} (chip : SysChip C) (k arg : ℕ) (r : C)
    → k ≢ 4
    → ((x : ℕ) (c : C) → chip.get_blank (chip.set_iic x c) ≡ chip.get_blank c)
    → chip.get_blank (sys_func_fun chip k arg r).2 ≡ chip.get_blank r
unfolding sys_func_fun
fun_keeps_blank chip zero arg r ne gi = refl
fun_keeps_blank chip (suc zero) arg r ne gi = refl
fun_keeps_blank chip (suc (suc zero)) arg r ne gi = refl
fun_keeps_blank chip (suc (suc (suc zero))) arg r ne gi = refl
fun_keeps_blank chip (suc (suc (suc (suc zero)))) arg r ne gi = absurd (ne refl)
fun_keeps_blank chip (suc (suc (suc (suc (suc zero))))) arg r ne gi = refl
fun_keeps_blank chip (suc (suc (suc (suc (suc (suc zero)))))) arg r ne gi = gi arg r
fun_keeps_blank chip (suc (suc (suc (suc (suc (suc (suc k))))))) arg r ne gi = refl

ioctl_keeps_blank :
    {C : Type 0} (chip : SysChip C) (nr_of : ℕ → ℕ) (reqs : List ℕ) (cmd arg : ℕ) (r : C) (l : Log)
    → IsNumbered nr_of 0 reqs
    → ((x : ℕ) (c : C) → chip.get_blank (chip.set_iic x c) ≡ chip.get_blank c)
    → cmd ≢ get_or reqs 4 0
    → chip.get_blank (sys_func_ioctl chip nr_of reqs cmd arg r l).2 ≡ chip.get_blank r
unfolding sys_func_ioctl
ioctl_keeps_blank chip nr_of reqs cmd arg r l num gi ne =
    elim (Option-cases (dispatch nr_of reqs cmd)) [
      | inl e ↦ rw (e, sys_func_ioctl) refl
      | inr (k, e) ↦
          rw (e, sys_func_ioctl)
            (fun_keeps_blank chip k arg r
              (λ k4.
                ne (((dispatch_iff nr_of reqs cmd k num).0 e).1 ∙ ap (λ j. get_or reqs j 0) k4))
              gi)
    ]

ioctl_at :
    {C : Type 0} (chip : SysChip C) (nr_of : ℕ → ℕ) (reqs : List ℕ) (k arg : ℕ) (r : C) (l : Log)
    → IsNumbered nr_of 0 reqs
    → k < length reqs
    → sys_func_ioctl chip nr_of reqs (get_or reqs k 0) arg r l ≡ (
      (sys_func_fun chip k arg r).0,
      (sys_func_fun chip k arg r).1,
      (sys_func_fun chip k arg r).2,
      unlock sys_func ∷ lock sys_func ∷ l,
    )
unfolding sys_func_ioctl
ioctl_at chip nr_of reqs k arg r l num lt =
    rw ((dispatch_iff nr_of reqs (get_or reqs k 0) k num).1 (lt, refl), sys_func_ioctl) refl

-- A value that the command BLANK_SET writes is what the command BLANK_GET then hands over, as far as
-- the register field has bits for it; any one command in between but BLANK_SET keeps it. Assumed of
-- the chip: the field of `w` bits reads back what was written, and selecting the IIC bus keeps it.
pub blank_get-blank_set :
    {C : Type 0} (chip : SysChip C) (nr_of : ℕ → ℕ) (reqs : List ℕ) (w v arg cmd : ℕ) (r : C)
    (l : Log)
    → IsNumbered nr_of 0 reqs
    → length reqs ≡ 7
    → ((x : ℕ) (c : C) → chip.get_blank (chip.set_blank x c) ≡ x % 2 ^ w)
    → ((x : ℕ) (c : C) → chip.get_blank (chip.set_iic x c) ≡ chip.get_blank c)
    → cmd ≢ get_or reqs 4 0
    → let wrote = sys_func_ioctl chip nr_of reqs (get_or reqs 4 0) v r l in
      let between = sys_func_ioctl chip nr_of reqs cmd arg wrote.2 wrote.3 in
      (sys_func_ioctl chip nr_of reqs (get_or reqs 3 0) arg between.2 between.3).1
      ≡ some (v % 2 ^ w)
unfolding sys_func_fun
blank_get-blank_set chip nr_of reqs w v arg cmd r l num len gs gi ne =
    let wrote = sys_func_ioctl chip nr_of reqs (get_or reqs 4 0) v r l in
    let between = sys_func_ioctl chip nr_of reqs cmd arg wrote.2 wrote.3 in
    let get_at = ioctl_at chip nr_of reqs 3 arg between.2 between.3 num (omega (arith, len)) in
    let set_at = ioctl_at chip nr_of reqs 4 v r l num (omega (arith, len)) in
    ap (λ z. z.1) get_at
    ∙ ap some (
        ioctl_keeps_blank chip nr_of reqs cmd arg wrote.2 wrote.3 num gi ne
        ∙ ap (λ z. chip.get_blank z.2) set_at
        ∙ gs v r)
