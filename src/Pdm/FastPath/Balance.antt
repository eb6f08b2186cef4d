-- ===== src/Pdm/FastPath/Balance.antt =====
-- The start of the slot files against their end.
use linux_drv.Prelude.{
  Bool-cases, [], arith, false, inl, inr, is_neg, length, none, pos, refl, some, true, ◌<◌, ◌∷◌,
  ◌≡◌,
}
use linux_drv.Kernel.{Log, Os, cdev_add, cdev_del, device_create, device_destroy, enomem}
use linux_drv.Pdm.FastPath.Device.{SifpDrv, SifpDrvs, drv_at}
use linux_drv.Pdm.FastPath.Start.{
  exit_all, exit_down, init_all, init_each, mid_2_slot, sifp_exit, sifp_init,
}

-- Of the table only the last entry is a slot.
pub init_all_once :
    (os : Os) (ds : SifpDrvs) (l : Log) → init_all os mid_2_slot ds l ≡ sifp_init os (pos 1) 3 ds l
unfolding init_all init_each exit_down
init_all_once os ds l = elim (Bool-cases (is_neg (sifp_init os (pos 1) 3 ds l).0)) [
  | inl e ↦ rw (e, e) refl
  | inr e ↦ rw (e, e) refl
]

pub exit_all_once : (ds : SifpDrvs) (l : Log) → exit_all mid_2_slot ds l ≡ sifp_exit (pos 1) ds l
unfolding exit_all exit_down
exit_all_once ds l = refl

created :
    (os : Os) (a b : SifpDrv) (ds : SifpDrvs) (l : Log)
    → is_neg (os l (cdev_add 3)) ≡ false
    → is_neg (os (cdev_add 3 ∷ l) (device_create 3)) ≡ false
    → sifp_init os (pos 1) 3 (a ∷ b ∷ ds) l ≡ (
      os l (cdev_add 3),
      a ∷ record b { m_cdev = 3; m_device = some 3 } ∷ ds,
      device_create 3 ∷ cdev_add 3 ∷ l,
    )
unfolding sifp_init
created os a b ds l e f = rw (e, f) refl

not_created :
    (os : Os) (a b : SifpDrv) (ds : SifpDrvs) (l : Log)
    → is_neg (os l (cdev_add 3)) ≡ false
    → is_neg (os (cdev_add 3 ∷ l) (device_create 3)) ≡ true
    → sifp_init os (pos 1) 3 (a ∷ b ∷ ds) l ≡ (
      enomem,
      a ∷ record b { m_cdev = 3; m_device = none } ∷ ds,
      cdev_del 3 ∷ device_create 3 ∷ cdev_add 3 ∷ l,
    )
unfolding sifp_init sifp_exit
not_created os a b ds l e f = rw (e, f) refl

not_added :
    (os : Os) (a b : SifpDrv) (ds : SifpDrvs) (l : Log)
    → b.m_device ≡ none
    → is_neg (os l (cdev_add 3)) ≡ true
    → sifp_init os (pos 1) 3 (a ∷ b ∷ ds) l ≡ (
      os l (cdev_add 3),
      a ∷ record b { m_cdev = 3; m_device = none } ∷ ds,
      cdev_del 3 ∷ cdev_add 3 ∷ l,
    )
unfolding sifp_init sifp_exit
not_added os a b ds l dev e = rw (e, dev) refl

-- sifp_init_all over the table of minor numbers, started without a device, succeeds exactly when
-- cdev_add and device_create both do, and then sifp_exit_all undoes the two calls in the reverse order.
-- Where one fails it answers an error with no device left and the character device deleted; after a
-- failed device_create a sifp_exit_all deletes the character device once more.
pub init_all_lem :
    (os : Os) (ds : SifpDrvs) (l : Log)
    → 1 < length ds
    → (drv_at ds 1).m_device ≡ none
    → let l1 : Log = cdev_add 3 ∷ l in
      let l2 : Log = device_create 3 ∷ l1 in
      let ret = (init_all os mid_2_slot ds l).0 in
      let ds' = (init_all os mid_2_slot ds l).1 in
      let l' = (init_all os mid_2_slot ds l).2 in
      (is_neg (os l (cdev_add 3)) ≡ true
        → (ret ≡ os l (cdev_add 3)) × (l' ≡ cdev_del 3 ∷ l1) × ((drv_at ds' 1).m_device ≡ none))
      × (is_neg (os l (cdev_add 3)) ≡ false
          → (is_neg (os l1 (device_create 3)) ≡ true
              → (ret ≡ enomem)
                × (l' ≡ cdev_del 3 ∷ l2)
                × ((drv_at ds' 1).m_device ≡ none)
                × ((exit_all mid_2_slot ds' l').1 ≡ cdev_del 3 ∷ l'))
            × (is_neg (os l1 (device_create 3)) ≡ false
                → (ret ≡ os l (cdev_add 3))
                  × ((drv_at ds' 1).m_device ≡ some 3)
                  × ((exit_all mid_2_slot ds' l').1 ≡ cdev_del 3 ∷ device_destroy 3 ∷ l2)
                  × ((drv_at (exit_all mid_2_slot ds' l').0 1).m_device ≡ none)))
unfolding sifp_exit
init_all_lem os [] l len dev = absurd (omega (arith, len))
init_all_lem os (a ∷ []) l len dev = absurd (omega (arith, len))
init_all_lem os (a ∷ b ∷ ds) l len dev = (
  (λ e. rw (init_all_once os (a ∷ b ∷ ds) l, not_added os a b ds l dev e) (refl, refl, refl)),
  (λ e. (
    (λ f.
        rw (init_all_once os (a ∷ b ∷ ds) l, not_created os a b ds l e f, exit_all_once)
          (refl, refl, refl, refl)),
    (λ f.
        rw (init_all_once os (a ∷ b ∷ ds) l, created os a b ds l e f, exit_all_once)
          (refl, refl, refl, refl)),
  )),
)
