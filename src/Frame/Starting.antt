-- ===== src/Frame/Starting.antt =====
-- The start and the end of a card's driver, with the card type it registers.
use mathlib.Core.Path.{subst}
use linux_drv.Prelude.{
  is_pos, if◌then◌else◌, Bool-cases, ap, arith, false, inl, inr, is_neg, none, get_or-set_self,
  set-set, sym, refl, replicate, set, some, true, ℕ, ℤ, ◌+◌, ◌∷◌, ◌∙◌, ◌≡◌, ◌⊎◌,
}
use linux_drv.Card.{etin_slot_max, index, is_card_type_err}
use linux_drv.Frame.Device.{is_os_ptr_invalid}
use linux_drv.Frame.Module.{
  exit_class, exit_files, exit_region, exit_unregistered, mod_exit, mod_failed, mod_init,
}
use linux_drv.Frame.Resources.{HoldsSame, reg-IsUntouched, unreg-IsUntouched}
use linux_drv.Frame.State.{Udf}
use linux_drv.Kernel.{
  regions, classes, has_live_class, Log, Os, alloc_region, class_create, class_destroy, enomem,
  unregister_region,
}
use linux_drv.Pdm.Slots.Inv.{IsValid, type_index-lt}
use linux_drv.Pdm.Slots.Registration.{reg_lem, registered, unreg_lem}
use linux_drv.Pdm.Slots.Registry.{is_registered, reg_online_offline_cb}
use linux_drv.Pdm.Slots.State.{CardTypeInfo, DrvVsnInfo, Slots, null_type, null_vsn, type_at}

-- Nothing of the driver's own is left.
abbrev pub IsUnloaded : Os → Log → Udf → Log → Type 0
IsUnloaded os l u' l' = (u'.init_step ≡ 0) × (u'.has_class ≡ false) × HoldsSame os l l'

-- The driver is loaded: its card type is registered, and it has its device numbers, and its class
-- where class_create answered one, and no error pointer.
abbrev pub IsLoaded : Os → ℕ → ℕ → ℕ → DrvVsnInfo → Slots → Log → Udf → Log → Type 0
IsLoaded os t on off vsn s l u' l' =
    (u'.init_step ≡ 3)
    × (u'.has_class ≡ true)
    × (u'.pdm ≡ registered t on off vsn s)
    × (regions os l' ≡ regions os l + 1)
    × (let made = is_pos (os (alloc_region ∷ l) class_create) in
        (has_live_class os l' ≡ made) × (classes os l' ≡ classes os l + (if made then 1 else 0)))

-- What starting a driver comes to.
abbrev pub Starts : Os → ℕ → ℕ → ℕ → DrvVsnInfo → Slots → Log → ℤ × Udf × Log → Type 0
Starts os t on off vsn s l (r, u', l') =
    ((is_neg r ≡ true)
      × IsUnloaded os l u' l'
      × ((u'.pdm ≡ s) ⊎ (u'.pdm ≡ registered t on off vsn s)))
    ⊎ ((is_neg r ≡ false) × IsLoaded os t on off vsn s l u' l')

mod_exit-none : (ct : ℤ) (u : Udf) (l : Log) → u.init_step ≡ 0 → mod_exit ct u l ≡ some (u, l)
unfolding mod_exit exit_files exit_class exit_region
mod_exit-none ct u l e = rw e refl

mod_exit-region :
    (ct : ℤ) (u : Udf) (l : Log)
    → u.init_step ≡ 1
    → mod_exit ct u l ≡ some (record u { init_step = 0 }, unregister_region ∷ l)
unfolding mod_exit exit_files exit_class exit_region
mod_exit-region ct u l e = rw e refl

mod_exit-class :
    (ct : ℤ) (u : Udf) (l : Log)
    → u.init_step ≡ 2
    → mod_exit ct u l
      ≡ some (record u { has_class = false; init_step = 0 }, unregister_region ∷ class_destroy ∷ l)
unfolding mod_exit exit_files exit_class exit_region
mod_exit-class ct u l e = rw e refl

-- udf_drv_mod_init of a driver that is not loaded, for a good card type that is not registered,
-- always returns. Either it answers an error, and the device numbers and the class are given
-- back, but the card type is as before or it is registered with this driver's callbacks; or it
-- answers no error, and the device numbers and the registration are there, and so is the class
-- unless class_create answered an error pointer, which the driver takes for a class.
pub mod_init_lem :
    (os : Os) (ct : ℤ) (on off : ℕ) (vsn : DrvVsnInfo) (u : Udf) (l : Log)
    → u.init_step ≡ 0
    → u.has_class ≡ false
    → is_card_type_err ct ≡ false
    → is_registered (type_at u.pdm (index ct)) ≡ false
    → (o : ℤ × Udf × Log) × (mod_init os ct on off vsn u l ≡ some o)
      × Starts os (index ct) on off vsn u.pdm l o
unfolding mod_init mod_failed
mod_init_lem os ct on off vsn u l fresh no_class good new =
    let l1 = alloc_region ∷ l in
    let l2 = class_create ∷ l1 in
    let u0 : Udf = record u { dev_set = replicate etin_slot_max none } in
    let u1 : Udf = record u0 { init_step = u.init_step + 1 } in
    let u2 : Udf = record u1 { has_class = true; init_step = u.init_step + 2 } in
    let (saved, _) = reg_lem os u.hw.chips ct on off vsn u.pdm l2 good new in
    let ((same_regions, same_classes), same_class) =
      reg-IsUntouched os u.hw.chips ct on off vsn u.pdm l2 in
    let (r, s, l3) = reg_online_offline_cb os u.hw.chips ct (some on) (some off) vsn u.pdm l2 in
    let u3 : Udf = record u2 { pdm = s } in
    elim (Bool-cases (is_neg (os l alloc_region))) [
      | inl e ↦ (
        (os l alloc_region, u0, l1),
        rw (e, mod_exit-none ct u0 l1 fresh) refl,
        inl (e, (fresh, no_class, (ground (arith, e), refl)), inl refl),
      )
      | inr e ↦ elim (Bool-cases (is_os_ptr_invalid (os l1 class_create))) [
        | inl f ↦ (
          (enomem, record u1 { has_class = false; init_step = 0 }, unregister_region ∷ l2),
          rw (e, f, mod_exit-region ct (record u1 { has_class = false }) l2 (ap (λ n. n + 1) fresh))
              refl,
          inl (refl, (refl, refl, (ground (arith, e), ground (arith, f))), inl refl),
        )
        | inr f ↦ elim (Bool-cases (is_neg r)) [
          | inl g ↦ (
            (
              r,
              record u3 { has_class = false; init_step = 0 },
              unregister_region ∷ class_destroy ∷ l3,
            ),
            rw (e, f, g, mod_exit-class ct u3 l3 (ap (λ n. n + 2) fresh)) refl,
            inl (
              g,
              (
                refl,
                refl,
                (ground (arith, same_regions, e), ground (arith, same_classes, same_class, f)),
              ),
              inr saved,
            ),
          )
          | inr g ↦ (
            (r, record u3 { init_step = u.init_step + 3 }, l3),
            rw (e, f, g) refl,
            inr (
              g,
              (
                ap (λ n. n + 3) fresh,
                refl,
                saved,
                ground (arith, same_regions, e),
                (same_class, ground (arith, same_classes)),
              ),
            ),
          )
        ]
      ]
    ]

-- A driver that was not loaded, started in a valid state without an error for a good card type
-- that was not registered, and is ended: ending returns, the card type's entries are null, the
-- slots are as before, and the device numbers and the class are given back.
pub mod_exit-mod_init :
    (os : Os) (ct : ℤ) (on off : ℕ) (vsn : DrvVsnInfo) (u : Udf) (l : Log) (o : ℤ × Udf × Log)
    → IsValid u.pdm
    → u.init_step ≡ 0
    → u.has_class ≡ false
    → is_card_type_err ct ≡ false
    → is_registered (type_at u.pdm (index ct)) ≡ false
    → mod_init os ct on off vsn u l ≡ some o
    → is_neg o.0 ≡ false
    → (u' : Udf) × (l' : Log) × (mod_exit ct o.1 o.2 ≡ some (u', l'))
      × IsUnloaded os l u' l'
      × (u'.pdm ≡ record u.pdm {
        types = set u.pdm.types (index ct) null_type;
        vsns = set u.pdm.vsns (index ct) null_vsn;
      })
unfolding mod_exit exit_unregistered exit_files exit_class exit_region
mod_exit-mod_init os ct on off vsn u l o v fresh no_class good new starts fine =
    let t = index ct in
    let (o1, e, out1) = mod_init_lem os ct on off vsn u l fresh no_class good new in
    let same : o1 ≡ o = cc (sym e ∙ starts) in
    let outcome = subst (Starts os t on off vsn u.pdm l) same out1 in
    elim outcome [
      | inl (bad, _, _) ↦ absurd (ground (arith, bad, fine))
      | inr (_, (three, _, saved, more_regions, (made, more_classes))) ↦
          let c : CardTypeInfo = record { cb_online = some on; cb_offline = some off } in
          let got : (type_at o.1.pdm t).cb_offline ≡ some off = rw saved (
            ap (λ (x : CardTypeInfo). x.cb_offline)
              (get_or-set_self u.pdm.types t c null_type
                (omega (arith, v.types_len, type_index-lt ct good)))) in
          let (k, gone, _) = unreg_lem ct off o.1.pdm o.2 good got in
          let s = record o.1.pdm {
            types = set o.1.pdm.types t null_type;
            vsns = set o.1.pdm.vsns t null_vsn;
          } in
          let ((same_regions, same_classes), same_class) =
            unreg-IsUntouched os ct off o.1.pdm s o.2 k good got gone in
          (
            record o.1 { pdm = s; has_class = false; init_step = 0 },
            unregister_region ∷ class_destroy ∷ k,
            rw (three, gone) refl,
            (
              refl,
              refl,
              (
                omega (arith, same_regions, more_regions),
                ground (arith, same_classes, same_class, made, more_classes),
              ),
            ),
            rw saved (simp set-set),
          )
    ]
