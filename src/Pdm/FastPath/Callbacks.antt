-- ===== src/Pdm/FastPath/Callbacks.antt =====
-- What a slot file answers, from the callbacks that its slot registered.
use linux_drv.Prelude.{
  ap, arith, get_or, get_or-set_ne, get_or-set_self, length, length-set, none, pos, refl, set, suc,
  sym, zero, ℕ, ℤ, ◌<◌, ◌∙◌, ◌∷◌, ◌≡◌, ◌≢◌,
}
use linux_drv.Ioctl.{Codec, IsNumbered, dispatch_iff, ioc_write}
use linux_drv.Kernel.{Log, Os, enosys, lock, sifp, unlock}
use linux_drv.Pdm.FastPath.Device.{
  SifpDrvs, SifpInfo, call_cb, drv_at, no_drv, null_info, sifp_cb, sifp_ioctl, sifp_read, sifp_reg,
  sifp_reqs, sifp_unreg,
}

abbrev pub with_lock : ℕ → ℤ × Log → ℤ × Log
with_lock i (r, l) = (r, unlock (sifp i) ∷ l)

pub sifp_reqs-IsNumbered : (c : Codec) → IsNumbered c.nr_of 0 (sifp_reqs c)
unfolding sifp_reqs
sifp_reqs-IsNumbered c = (
  c.nr_of-ioc ioc_write 4 b's' 0 (omega arith),
  (
    c.nr_of-ioc ioc_write 4 b's' 1 (omega arith),
    (
      c.nr_of-ioc ioc_write 4 b's' 2 (omega arith),
      (c.nr_of-ioc ioc_write 4 b's' 3 (omega arith), tt),
    ),
  ),
)

length-sifp_reqs : (c : Codec) → length (sifp_reqs c) ≡ 4
unfolding sifp_reqs
length-sifp_reqs c = refl

ioctl_calls :
    (c : Codec) (os : Os) (i k op : ℕ) (ds : SifpDrvs) (l : Log)
    → k < 4
    → sifp_ioctl c os i (get_or (sifp_reqs c) k 0) op ds l
      ≡ with_lock i (
          call_cb os
            (sifp_cb k (drv_at ds i).slot_info).0
            (sifp_cb k (drv_at ds i).slot_info).1
            op
            (lock (sifp i) ∷ l))
unfolding sifp_ioctl
ioctl_calls c os i k op ds l lt =
    rw
      (
        (dispatch_iff c.nr_of (sifp_reqs c) (get_or (sifp_reqs c) k 0) k (sifp_reqs-IsNumbered c)).1
            (omega (arith, lt, length-sifp_reqs c), refl),
        sifp_ioctl,
      )
      refl

null_cb : (k : ℕ) → (sifp_cb k null_info).0 ≡ none
null_cb zero = refl
null_cb (suc zero) = refl
null_cb (suc (suc zero)) = refl
null_cb (suc (suc (suc k))) = refl

-- After sifp_reg_for_online of the slot SELF its file answers from the new callbacks: a read calls the
-- read callback with its argument and the size, and the k-th command calls the k-th callback (the LEDs
-- green, yellow and red, then the inventory) with its argument and the value, each under the slot's
-- lock; the answer is the callback's, and -ENOSYS with no call where the callback is null.
pub calls_registered :
    (c : Codec) (os : Os) (info : SifpInfo) (ds : SifpDrvs) (k v : ℕ) (l l1 : Log)
    → 1 < length ds
    → k < 4
    → let ds1 = (sifp_reg (pos 1) info ds l1).1 in
      (sifp_read os 1 v ds1 l
        ≡ with_lock 1 (call_cb os info.read_cb info.read_arg v (lock (sifp 1) ∷ l)))
      × (sifp_ioctl c os 1 (get_or (sifp_reqs c) k 0) v ds1 l
          ≡ with_lock 1 (call_cb os (sifp_cb k info).0 (sifp_cb k info).1 v (lock (sifp 1) ∷ l)))
unfolding sifp_reg sifp_read
calls_registered c os info ds k v l l1 len lt =
    let d = record (drv_at ds 1) { slot_info = info } in
    let e = get_or-set_self ds 1 d no_drv len in
    (
      rw e refl,
      ioctl_calls c os 1 k v (set ds 1 d) l lt
          ∙ ap
              (λ z. with_lock 1 (
                call_cb os (sifp_cb k z.slot_info).0 (sifp_cb k z.slot_info).1 v
                  (lock (sifp 1) ∷ l)))
              e,
    )

-- A slot that registered its callbacks and then unregistered them: a read and every command answer
-- -ENOSYS and call nothing, and the other slots and this slot's device are as before.
pub sifp_unreg-sifp_reg :
    (c : Codec) (os : Os) (info : SifpInfo) (ds : SifpDrvs) (k v j : ℕ) (l l1 l2 : Log)
    → 1 < length ds
    → k < 4
    → let ds1 = (sifp_reg (pos 1) info ds l1).1 in
      let ds2 = (sifp_unreg (pos 1) ds1 l2).0 in
      (sifp_read os 1 v ds2 l ≡ (enosys, unlock (sifp 1) ∷ lock (sifp 1) ∷ l))
      × (sifp_ioctl c os 1 (get_or (sifp_reqs c) k 0) v ds2 l
          ≡ (enosys, unlock (sifp 1) ∷ lock (sifp 1) ∷ l))
      × ((drv_at ds2 1).m_device ≡ (drv_at ds 1).m_device)
      × (j ≢ 1 → drv_at ds2 j ≡ drv_at ds j)
unfolding sifp_reg sifp_unreg sifp_read call_cb
sifp_unreg-sifp_reg c os info ds k v j l l1 l2 len lt =
    let d1 = record (drv_at ds 1) { slot_info = info } in
    let ds1 = set ds 1 d1 in
    let d2 = record (drv_at ds1 1) { slot_info = null_info } in
    let e1 = get_or-set_self ds 1 d1 no_drv len in
    let e2 = get_or-set_self ds1 1 d2 no_drv (rw length-set len) in
    (
      rw e2 refl,
      ioctl_calls c os 1 k v (set ds1 1 d2) l lt ∙ rw (e2, null_cb k) refl,
      rw (e2, e1) refl,
      (λ ne.
          get_or-set_ne ds1 1 j d2 no_drv (λ e. ne (sym e))
          ∙ get_or-set_ne ds 1 j d1 no_drv (λ e. ne (sym e))),
    )
