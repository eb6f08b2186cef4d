-- ===== src/Pdm/Slots/Registry.antt =====
-- Registering the callbacks of a card type: `pdm_reg_online_offline_cb` and its inverse.
-- A function takes the state and the log, and returns them anew.
use linux_drv.Prelude.{
  Bool, List, Option, [], get_or, if◌then◌else◌, is_null, none, not, pos, same_ref, set, some, suc,
  ℕ, ℤ, ◌||◌, ◌∷◌,
}
use linux_drv.Card.{index, is_card_type_err}
use linux_drv.Kernel.{Log, Os, card_type, eexist, einval, lock, offline, online, slot, unlock}
use linux_drv.Pdm.Slots.State.{
  CardTypeInfo, DrvVsnInfo, SlotInfo, Slots, null_type, null_vsn, type_at,
}

-- The body of the loop over the slots in `pdm_reg_online_offline_cb`.
unfoldable pub reg_visit : Os → ℕ → ℕ → ℕ → ℕ → SlotInfo → ℤ → Log → ℤ × Log
reg_visit os t cb i base s ret l =
    let l1 = lock (slot i) ∷ l in
    let r = os l1 (online cb i base) in
    if same_ref s.type_info t
    then (r, unlock (slot i) ∷ online cb i base ∷ l1)
    else (ret, unlock (slot i) ∷ l1)

-- The loop; `chips` is `g_cpld_chip`, 0 being NULL.
unfoldable pub reg_each : Os → List ℕ → ℕ → ℕ → ℕ → List SlotInfo → ℤ → Log → ℤ × Log
reg_each os chips t cb i [] ret l = (ret, l)
reg_each os chips t cb i (s ∷ ss) ret l =
    let (r, l') = reg_visit os t cb i (get_or chips i 0) s ret l in
    reg_each os chips t cb (suc i) ss r l'

abbrev pub is_registered : CardTypeInfo → Bool
is_registered c = not (is_null c.cb_online) || not (is_null c.cb_offline)

-- `pdm_reg_online_offline_cb` behind its check of the parameters.
unfoldable pub reg_checked : Os → List ℕ → ℕ → ℕ → ℕ → DrvVsnInfo → Slots → Log → ℤ × Slots × Log
reg_checked os chips t on off vsn s l =
    let l1 = lock card_type ∷ l in
    let (ret, l2) = reg_each os chips t on 0 s.slots (pos 0) l1 in
    let s' : Slots = record s {
      types = set s.types t (record { cb_online = some on; cb_offline = some off });
      vsns = set s.vsns t vsn;
    } in
    if is_registered (type_at s t)
    then (eexist, s, unlock card_type ∷ l1)
    else (ret, s', unlock card_type ∷ l2)

unfoldable pub reg_online_offline_cb :
    Os → List ℕ → ℤ → Option ℕ → Option ℕ → DrvVsnInfo → Slots → Log → ℤ × Slots × Log
reg_online_offline_cb os chips ct none off vsn s l = (einval, s, l)
reg_online_offline_cb os chips ct (some on) none vsn s l = (einval, s, l)
reg_online_offline_cb os chips ct (some on) (some off) vsn s l =
    if is_card_type_err ct then (einval, s, l) else reg_checked os chips (index ct) on off vsn s l

-- The loop of `pdm_unreg_online_offline_cb`; `none` is a call of a null function pointer.
unfoldable pub unreg_each : ℕ → Option ℕ → ℕ → List SlotInfo → Log → Option Log
unreg_each t cb i [] l = some l
unreg_each t none i (s ∷ ss) l =
    let rest = unreg_each t none (suc i) ss (unlock (slot i) ∷ lock (slot i) ∷ l) in
    if same_ref s.type_info t then none else rest
unreg_each t (some off) i (s ∷ ss) l =
    let l1 = lock (slot i) ∷ l in
    unreg_each t (some off) (suc i) ss
      (unlock (slot i) ∷ (if same_ref s.type_info t then offline off i ∷ l1 else l1))

unfoldable pub unreg_checked : ℕ → Slots → Log → Option (Slots × Log)
unreg_checked t s l =
    let s' : Slots = record s { types = set s.types t null_type; vsns = set s.vsns t null_vsn } in
    elim (unreg_each t (type_at s t).cb_offline 0 s.slots (lock card_type ∷ l)) [
      | none ↦ none
      | some l' ↦ some (s', unlock card_type ∷ l')
    ]

unfoldable pub unreg_online_offline_cb : ℤ → Slots → Log → Option (Slots × Log)
unreg_online_offline_cb ct s l =
    if is_card_type_err ct then some (s, l) else unreg_checked (index ct) s l
