-- ===== src/Frame/Leaving.antt =====
-- A card that leaves its slot again.
use mathlib.Core.Path.{subst}
use linux_drv.Prelude.{
  Bool-cases, ap, arith, false, get_or, get_or-set_self, if◌then◌else◌, inl, inr, length, none, pos,
  refl, set, set-get_or, set-set, some, sym, ℕ, ℤ, ◌-◌, ◌<◌, ◌∙◌, ◌≡◌,
}
use linux_drv.Card.{is_slot_err}
use linux_drv.Frame.Device.{end_dev, udf_offline, udf_online}
use linux_drv.Frame.Halves.{bh_offline}
use linux_drv.Frame.Memory.{live, live-main_exit}
use linux_drv.Frame.State.{Udf, dev_at, put_dev, put_hw_addr}
use linux_drv.Kernel.{Log, Os}
use linux_drv.Pdm.FastPath.Device.{
  SifpDrv, SifpDrvs, SifpInfo, drv_at, is_sifp_slot_err, no_drv, null_info, sifp_unreg,
}
use linux_drv.Frame.Cards.{HasCard, IsVacant, udf_online_lem, vacated}

-- The fast path without the callbacks of the slot.
abbrev pub silent : ℕ → SifpDrvs → SifpDrvs
silent i ds =
    if is_sifp_slot_err (pos i)
    then ds
    else set ds i (record (drv_at ds i) { slot_info = null_info })

sifp_unreg-silent :
    (os : Os) (i : ℕ) (ds : SifpDrvs) (l : Log)
    → let (ds', l') = sifp_unreg (pos i) ds l in (ds' ≡ silent i ds) × (live os l' ≡ live os l)
unfolding sifp_unreg
sifp_unreg-silent os i ds l = elim (Bool-cases (is_sifp_slot_err (pos i))) [
  | inl e ↦ rw e (refl, refl)
  | inr e ↦ rw e (refl, refl)
]

silent-again :
    (i : ℕ) (info : SifpInfo) (ds : SifpDrvs)
    → i < length ds
    → silent i (
        if is_sifp_slot_err (pos i)
        then ds
        else set ds i (record (drv_at ds i) { slot_info = info }))
      ≡ silent i ds
silent-again i info ds lt =
    let d : SifpDrv = record (drv_at ds i) { slot_info = info } in
    let here = get_or-set_self ds i d no_drv lt in
    elim (Bool-cases (is_sifp_slot_err (pos i))) [
      | inl e ↦ rw e
      | inr e ↦ rw (e, here) (set-set ds i d (record d { slot_info = null_info }))
    ]

-- The slot empty again: as in `u`, but for its fast-path callbacks, which are null.
abbrev pub IsEmptied : ℕ → Udf → Udf → Type 0
IsEmptied i u u' =
    (u'.dev_set ≡ u.dev_set)
    × (u'.hw_addrs ≡ u.hw_addrs)
    × (u'.pdm ≡ u.pdm)
    × (u'.sifps ≡ silent i u.sifps)

udf_offline-good :
    (i : ℕ) (u : Udf) (l : Log)
    → is_slot_err (pos i) ≡ false
    → udf_offline (pos i) u l ≡ (
      put_hw_addr i 0 (put_dev i none (bh_offline i u l).0),
      end_dev i (dev_at (bh_offline i u l).0 i) (bh_offline i u l).1,
    )
unfolding udf_offline
udf_offline-good i u l good = rw good refl

-- Nothing but the fast-path callbacks is there to go.
offline_nothing :
    (os : Os) (i : ℕ) (u : Udf) (l : Log)
    → is_slot_err (pos i) ≡ false
    → get_or u.hw_addrs i 0 ≡ 0
    → dev_at u i ≡ none
    → let (u', l') = udf_offline (pos i) u l in IsEmptied i u u' × (live os l' ≡ live os l)
unfolding bh_offline end_dev
offline_nothing os i u l good vacant no_dev =
    let (ds, more) = sifp_unreg-silent os i u.sifps l in
    rw (udf_offline-good i u l good, no_dev)
      (
        (
          ap (set u.dev_set i) (sym no_dev) ∙ set-get_or u.dev_set i none,
          ap (set u.hw_addrs i) (sym vacant) ∙ set-get_or u.hw_addrs i 0,
          refl,
          ds,
        ),
        more,
      )

offline_card :
    (os : Os) (sifp_of : ℕ → SifpInfo) (i base : ℕ) (u u1 : Udf) (l : Log) (r : ℤ)
    → is_slot_err (pos i) ≡ false
    → get_or u.hw_addrs i 0 ≡ 0
    → dev_at u i ≡ none
    → i < length u.dev_set
    → i < length u.sifps
    → HasCard os sifp_of i base u r u1 l
    → let (u', l') = udf_offline (pos i) u1 l in IsEmptied i u u' × (live os l' ≡ live os l - 1)
unfolding bh_offline end_dev
offline_card os sifp_of i base u u1 l r good vacant no_dev lt lt_sifp
      (d, closed, _, devs, addrs, same_pdm, _, paths) =
    let (ds, more) = sifp_unreg-silent os i u1.sifps l in
    let here : dev_at u1 i ≡ some d = rw devs (get_or-set_self u.dev_set i (some d) none lt) in
    rw (udf_offline-good i u1 l good, here)
      (
        (
          ap (λ xs. set xs i none) devs
              ∙ set-set u.dev_set i (some d) none
              ∙ ap (set u.dev_set i) (sym no_dev)
              ∙ set-get_or u.dev_set i none,
          ap (λ xs. set xs i 0) addrs ∙ ap (λ (x : Udf). x.hw_addrs) (vacated u i base vacant),
          same_pdm,
          ds ∙ ap (silent i) paths ∙ silent-again i (sifp_of base) u.sifps lt_sifp,
        ),
        live-main_exit os i (sifp_unreg (pos i) u1.sifps l).1 ∙ omega (arith, more),
      )

-- A card that comes into a vacant slot, which has no device, and leaves it again, whatever
-- udf_online answered: the devices, the addresses and the PDM driver's data are as before, the
-- slot has no fast-path callbacks, and all memory that was taken is freed.
pub udf_offline-udf_online :
    (os : Os) (sifp_of : ℕ → SifpInfo) (i base : ℕ) (u : Udf) (l : Log)
    → IsVacant (pos i) base u
    → dev_at u i ≡ none
    → i < length u.dev_set
    → i < length u.sifps
    → let (_, u1, l1) = udf_online os sifp_of (pos i) base u l in
      let (u', l') = udf_offline (pos i) u1 l1 in IsEmptied i u u' × (live os l' ≡ live os l)
udf_offline-udf_online os sifp_of i base u l (good, some_base, lt_addr, vacant) no_dev lt lt_sifp =
    let (r, u1, l1) = udf_online os sifp_of (pos i) base u l in
    elim (udf_online_lem os sifp_of i base u l (good, some_base, lt_addr, vacant)) [
      | inl (_, same, kept) ↦
          let (emptied, more) = offline_nothing os i u1 l1 good (rw same vacant) (rw same no_dev) in
          (subst (λ w. IsEmptied i w (udf_offline (pos i) u1 l1).0) same emptied, more ∙ kept)
      | inr (has, kept) ↦
          let (emptied, more) =
            offline_card os sifp_of i base u u1 l1 r good vacant no_dev lt lt_sifp has in
          (emptied, more ∙ omega (arith, kept))
    ]
