-- ===== src/Frame/Resources.antt =====
-- The device numbers and the class that a card's driver holds.
use mathlib.Core.Path.{subst}
use linux_drv.Prelude.{
  Bool-cases, List, Option-cases, [], arith, false, get_or, inl, inr, pos, refl, same_ref, some,
  suc, ℕ, ℤ, ◌∷◌, ◌∙◌, ◌≡◌,
}
use linux_drv.Card.{index, is_card_type_err}
use linux_drv.Kernel.{
  regions, classes, has_live_class, Log, Os, card_type, lock, offline, slot, unlock,
}
use linux_drv.Pdm.Slots.Registry.{
  reg_checked, reg_each, reg_online_offline_cb, reg_visit, unreg_checked, unreg_each,
  unreg_online_offline_cb,
}
use linux_drv.Pdm.Slots.State.{DrvVsnInfo, SlotInfo, Slots, type_at}

-- As many of both.
abbrev pub HoldsSame : Os → Log → Log → Type 0
HoldsSame os l l' = (regions os l' ≡ regions os l) × (classes os l' ≡ classes os l)

-- As many of both, and the last class is as it was.
abbrev pub IsUntouched : Os → Log → Log → Type 0
IsUntouched os l l' = HoldsSame os l l' × (has_live_class os l' ≡ has_live_class os l)

reg_visit-IsUntouched :
    (os : Os) (t cb i base : ℕ) (v : SlotInfo) (ret : ℤ) (l : Log)
    → IsUntouched os l (reg_visit os t cb i base v ret l).1
unfolding reg_visit
reg_visit-IsUntouched os t cb i base v ret l = elim (Bool-cases (same_ref v.type_info t)) [
  | inl e ↦ rw e ((refl, refl), refl)
  | inr e ↦ rw e ((refl, refl), refl)
]

reg_each-IsUntouched :
    (os : Os) (chips : List ℕ) (t cb i : ℕ) (vs : List SlotInfo) (ret : ℤ) (l : Log)
    → IsUntouched os l (reg_each os chips t cb i vs ret l).1
unfolding reg_each
reg_each-IsUntouched os chips t cb i [] ret l = ((refl, refl), refl)
reg_each-IsUntouched os chips t cb i (v ∷ vs) ret l =
    let (r, l') = reg_visit os t cb i (get_or chips i 0) v ret l in
    let ((a, b), x) = reg_visit-IsUntouched os t cb i (get_or chips i 0) v ret l in
    let ((c, d), y) = reg_each-IsUntouched os chips t cb (suc i) vs r l' in ((c ∙ a, d ∙ b), y ∙ x)

pub reg-IsUntouched :
    (os : Os) (chips : List ℕ) (ct : ℤ) (on off : ℕ) (vsn : DrvVsnInfo) (s : Slots) (l : Log)
    → IsUntouched os l (reg_online_offline_cb os chips ct (some on) (some off) vsn s l).2
unfolding reg_online_offline_cb reg_checked
reg-IsUntouched os chips ct on off vsn s l =
    let same = reg_each-IsUntouched os chips (index ct) on 0 s.slots (pos 0) (lock card_type ∷ l) in
    ground (arith, same)

unreg_each-IsUntouched :
    (os : Os) (t off i : ℕ) (vs : List SlotInfo) (l k : Log)
    → unreg_each t (some off) i vs l ≡ some k
    → IsUntouched os l k
unfolding unreg_each
unreg_each-IsUntouched os t off i [] l k e = ground (arith, e)
unreg_each-IsUntouched os t off i (v ∷ vs) l k e = elim (Bool-cases (same_ref v.type_info t)) [
  | inl hit ↦
      unreg_each-IsUntouched os t off (suc i) vs
        (unlock (slot i) ∷ offline off i ∷ lock (slot i) ∷ l) k (rw hit at e)
  | inr miss ↦
      unreg_each-IsUntouched os t off (suc i) vs (unlock (slot i) ∷ lock (slot i) ∷ l) k
        (rw miss at e)
]

pub unreg-IsUntouched :
    (os : Os) (ct : ℤ) (off : ℕ) (s s' : Slots) (l k : Log)
    → is_card_type_err ct ≡ false
    → (type_at s (index ct)).cb_offline ≡ some off
    → unreg_online_offline_cb ct s l ≡ some (s', k)
    → IsUntouched os l k
unfolding unreg_online_offline_cb unreg_checked
unreg-IsUntouched os ct off s s' l k good got e =
    elim (Option-cases (unreg_each (index ct) (some off) 0 s.slots (lock card_type ∷ l))) [
      | inl fault ↦ absurd (cc (rw (good, got, fault, unreg_checked) at e))
      | inr (k1, fine) ↦
          let same =
            unreg_each-IsUntouched os (index ct) off 0 s.slots (lock card_type ∷ l) k1 fine in
          let here = rw (good, got, fine, unreg_checked) at e in
          let ends : unlock card_type ∷ k1 ≡ k = cc here in subst (IsUntouched os l) ends same
    ]
