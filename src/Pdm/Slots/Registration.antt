-- ===== src/Pdm/Slots/Registration.antt =====
-- Registering and unregistering the callbacks of a card type.
use linux_drv.Prelude.{
  Bool, Bool-cases, List, Option, Option-cases, [], ap, arith, false, get_or, get_or-set_self,
  if◌then◌else◌, inl, inr, is_neg, is_null, none, pos, refl, same_ref, set, set-set, some, suc,
  true, ℕ, ℤ, ◌&&◌, ◌||◌, ◌↔◌, ◌∙◌, ◌∷◌, ◌≡◌,
}
use linux_drv.Card.{index, is_card_type_err}
use linux_drv.Kernel.{Log, Os, card_type, lock, offline, online, slot, unlock}
use linux_drv.Pdm.Slots.Callbacks.{cbs}
use linux_drv.Pdm.Slots.Inv.{IsValid, type_index-lt}
use linux_drv.Pdm.Slots.Registry.{
  is_registered, reg_checked, reg_each, reg_online_offline_cb, reg_visit, unreg_checked, unreg_each,
  unreg_online_offline_cb,
}
use linux_drv.Pdm.Slots.State.{
  CardTypeInfo, DrvVsnInfo, SlotInfo, Slots, null_type, null_vsn, type_at,
}

-- The online calls of `cb` for the slots from index `i` on that have a card of the type `t`, after
-- the calls `l`.
abbrev pub each_online : ℕ → ℕ → List ℕ → ℕ → List SlotInfo → Log → Log
each_online t cb chips i [] l = l
each_online t cb chips i (v ∷ vs) l =
    each_online t cb chips (suc i) vs
      (if same_ref v.type_info t then online cb i (get_or chips i 0) ∷ l else l)

abbrev pub each_offline : ℕ → ℕ → ℕ → List SlotInfo → Log → Log
each_offline t cb i [] l = l
each_offline t cb i (v ∷ vs) l =
    each_offline t cb (suc i) vs (if same_ref v.type_info t then offline cb i ∷ l else l)

-- Some slot has a card of the type `t`.
abbrev pub in_use : ℕ → List SlotInfo → Bool
in_use t [] = false
in_use t (v ∷ vs) = same_ref v.type_info t || in_use t vs

cbs-reg_visit :
    (os : Os) (t cb i base : ℕ) (v : SlotInfo) (ret : ℤ) (l : Log)
    → cbs (reg_visit os t cb i base v ret l).1
      ≡ (if same_ref v.type_info t then online cb i base ∷ cbs l else cbs l)
unfolding reg_visit
cbs-reg_visit os t cb i base v ret l = elim (Bool-cases (same_ref v.type_info t)) [
  | inl e ↦ rw e
  | inr e ↦ rw e
]

cbs-reg_each :
    (os : Os) (chips : List ℕ) (t cb i : ℕ) (vs : List SlotInfo) (ret : ℤ) (l : Log)
    → cbs (reg_each os chips t cb i vs ret l).1 ≡ each_online t cb chips i vs (cbs l)
unfolding reg_each
cbs-reg_each os chips t cb i [] ret l = refl
cbs-reg_each os chips t cb i (v ∷ vs) ret l =
    let (r, l') = reg_visit os t cb i (get_or chips i 0) v ret l in
    cbs-reg_each os chips t cb (suc i) vs r l'
    ∙ ap (each_online t cb chips (suc i) vs) (cbs-reg_visit os t cb i (get_or chips i 0) v ret l)

-- Without a callback the loop of `pdm_unreg_online_offline_cb` faults at the first card of the type.
unreg_each-null :
    (t i : ℕ) (vs : List SlotInfo) (l : Log)
    → (unreg_each t none i vs l ≡ none) ↔ (in_use t vs ≡ true)
unfolding unreg_each
unreg_each-null t i [] l = ((λ e. absurd (cc)), (λ e. absurd (cc)))
unreg_each-null t i (v ∷ vs) l =
    let ih = unreg_each-null t (suc i) vs (unlock (slot i) ∷ lock (slot i) ∷ l) in
    elim (Bool-cases (same_ref v.type_info t)) [
      | inl hit ↦ rw hit ((λ _. refl), (λ _. refl))
      | inr miss ↦ rw miss ih
    ]

-- With one it never faults, and calls it for each of them, in the order of the slots.
unreg_each-some :
    (t cb i : ℕ) (vs : List SlotInfo) (l : Log)
    → (k : Log) × (unreg_each t (some cb) i vs l ≡ some k)
      × (cbs k ≡ each_offline t cb i vs (cbs l))
unfolding unreg_each
unreg_each-some t cb i [] l = (l, refl, refl)
unreg_each-some t cb i (v ∷ vs) l = elim (Bool-cases (same_ref v.type_info t)) [
  | inl hit ↦
      rw hit (unreg_each-some t cb (suc i) vs (unlock (slot i) ∷ offline cb i ∷ lock (slot i) ∷ l))
  | inr miss ↦ rw miss (unreg_each-some t cb (suc i) vs (unlock (slot i) ∷ lock (slot i) ∷ l))
]

-- `pdm_unreg_online_offline_cb` of a good card type calls a null function pointer exactly when the
-- type has no offline callback and some slot has a card of the type.
pub unreg-fault :
    (ct : ℤ) (s : Slots) (l : Log)
    → is_card_type_err ct ≡ false
    → (unreg_online_offline_cb ct s l ≡ none)
      ↔ (is_null (type_at s (index ct)).cb_offline && in_use (index ct) s.slots ≡ true)
unfolding unreg_online_offline_cb unreg_checked
unreg-fault ct s l good =
    let t = index ct in
    elim (Option-cases (type_at s t).cb_offline) [
      | inl e ↦ elim (Option-cases (unreg_each t none 0 s.slots (lock card_type ∷ l))) [
        | inl fault ↦
            rw (good, e, fault, unreg_checked)
              ((λ _. (unreg_each-null t 0 s.slots (lock card_type ∷ l)).0 fault), (λ _. refl))
        | inr (k, fine) ↦
            rw (good, e, fine, unreg_checked)
              (
                (λ h. absurd (cc)),
                (λ h. absurd (cc ((unreg_each-null t 0 s.slots (lock card_type ∷ l)).1 h))),
              )
      ]
      | inr (cb, e) ↦
          let (k, fine, _) = unreg_each-some t cb 0 s.slots (lock card_type ∷ l) in
          rw (good, e, fine, unreg_checked) ((λ h. absurd (cc)), (λ h. absurd (cc)))
    ]

-- What registering a card type saves.
abbrev pub registered : ℕ → ℕ → ℕ → DrvVsnInfo → Slots → Slots
registered t on off vsn s = record s {
  types = set s.types t (record { cb_online = some on; cb_offline = some off });
  vsns = set s.vsns t vsn;
}

-- `pdm_reg_online_offline_cb` for a good card type that is not registered yet calls the online
-- callback once for each slot that has a card of the type, in the order of the slots, and saves the
-- callbacks and the version whatever those calls answer; the slots stay as they are.
pub reg_lem :
    (os : Os) (chips : List ℕ) (ct : ℤ) (on off : ℕ) (vsn : DrvVsnInfo) (s : Slots) (l : Log)
    → is_card_type_err ct ≡ false
    → is_registered (type_at s (index ct)) ≡ false
    → let t = index ct in
      let (_, s', l') = reg_online_offline_cb os chips ct (some on) (some off) vsn s l in
      (s' ≡ registered t on off vsn s) × (cbs l' ≡ each_online t on chips 0 s.slots (cbs l))
unfolding reg_online_offline_cb reg_checked
reg_lem os chips ct on off vsn s l good new =
    rw (good, new)
      (refl, cbs-reg_each os chips (index ct) on 0 s.slots (pos 0) (lock card_type ∷ l))

-- A registered card type, a bad card type or a null callback is refused: the table stays as it is,
-- no callback runs, and the answer is an error.
pub reg_refused :
    (os : Os) (chips : List ℕ) (ct : ℤ) (on off : Option ℕ) (vsn : DrvVsnInfo) (s : Slots) (l : Log)
    → is_card_type_err ct || is_null on || is_null off || is_registered (type_at s (index ct))
      ≡ true
    → let (r, s', l') = reg_online_offline_cb os chips ct on off vsn s l in
      (is_neg r ≡ true) × (s' ≡ s) × (cbs l' ≡ cbs l)
unfolding reg_online_offline_cb reg_checked
reg_refused os chips ct none off vsn s l h = (refl, refl, refl)
reg_refused os chips ct (some on) none vsn s l h = (refl, refl, refl)
reg_refused os chips ct (some on) (some off) vsn s l h = elim (Bool-cases (is_card_type_err ct)) [
  | inl bad ↦ rw bad (refl, refl, refl)
  | inr good ↦ elim (Bool-cases (is_registered (type_at s (index ct)))) [
    | inl old ↦ rw (good, old) (refl, refl, refl)
    | inr new ↦ absurd (cc (rw (good, new) at h))
  ]
]

-- Unregistering a card type that has an offline callback does not fault.
pub unreg_lem :
    (ct : ℤ) (off : ℕ) (s : Slots) (l : Log)
    → is_card_type_err ct ≡ false
    → (type_at s (index ct)).cb_offline ≡ some off
    → let t = index ct in
      (k : Log) × (unreg_online_offline_cb ct s l
        ≡ some (record s { types = set s.types t null_type; vsns = set s.vsns t null_vsn }, k))
      × (cbs k ≡ each_offline t off 0 s.slots (cbs l))
unfolding unreg_online_offline_cb unreg_checked
unreg_lem ct off s l good got =
    let (k, fine, cs) = unreg_each-some (index ct) off 0 s.slots (lock card_type ∷ l) in
    (unlock card_type ∷ k, rw (good, got, unreg_checked) (rw fine), cs)

-- A card type that was registered (by `pdm_reg_online_offline_cb`, whatever it answered) and is then
-- unregistered: no fault; the type's entries are null again, and the slots are as before; the
-- offline callback is called for the same slots as the online callback.
pub unreg-reg :
    (os : Os) (chips : List ℕ) (ct : ℤ) (on off : ℕ) (vsn : DrvVsnInfo) (s : Slots) (l : Log)
    → IsValid s
    → is_card_type_err ct ≡ false
    → is_registered (type_at s (index ct)) ≡ false
    → let t = index ct in
      let (_, s1, l1) = reg_online_offline_cb os chips ct (some on) (some off) vsn s l in
      (k : Log) × (unreg_online_offline_cb ct s1 l1
        ≡ some (record s { types = set s.types t null_type; vsns = set s.vsns t null_vsn }, k))
      × (cbs k ≡ each_offline t off 0 s.slots (each_online t on chips 0 s.slots (cbs l)))
unreg-reg os chips ct on off vsn s l v good new =
    let t = index ct in
    let (r, s1, l1) = reg_online_offline_cb os chips ct (some on) (some off) vsn s l in
    let (here, calls) = reg_lem os chips ct on off vsn s l good new in
    let c : CardTypeInfo = record { cb_online = some on; cb_offline = some off } in
    let got : (type_at s1 t).cb_offline ≡ some off = rw here (
      ap (λ (u : CardTypeInfo). u.cb_offline)
        (get_or-set_self s.types t c null_type
          (omega (arith, v.types_len, type_index-lt ct good)))) in
    let (k, gone, cs) = unreg_lem ct off s1 l1 good got in
    (k, gone ∙ rw here (simp set-set), cs ∙ rw (here, calls))
