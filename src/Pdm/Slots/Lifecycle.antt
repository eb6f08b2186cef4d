-- ===== src/Pdm/Slots/Lifecycle.antt =====
-- A card comes into a slot and leaves it: `pdm_card_online` and `pdm_card_offline` together.
use linux_drv.Prelude.{
  List, Option, pos, sym, ap, arith, false, get_or, if◌then◌else◌, is_neg, none, refl, set-set,
  some, ℕ, ℤ, ◌||◌, ◌∙◌, ◌∷◌, ◌≡◌,
}
use linux_drv.Card.{index, is_card_type_err, is_slot_err}
use linux_drv.Kernel.{Log, Os, card_type, eexist, lock, online, slot, unlock}
use linux_drv.Pdm.Slots.Callbacks.{
  cbs, cbs-int_reg_op, cbs-offline_call, cbs-online_call, offline_cbs, online_cbs,
}
use linux_drv.Pdm.Slots.Cards.{card_offline, card_online, online_call, online_empty}
use linux_drv.Pdm.Slots.Effects.{offline_card-ok, slot_at-put_slot, vacant}
use linux_drv.Pdm.Slots.Inv.{IsValid, card_online-IsValid, index-lt}
use linux_drv.Pdm.Slots.Irq.{disable_int_reg}
use linux_drv.Pdm.Slots.State.{SlotInfo, Slots, put_slot, slot_at, type_at}

-- A card comes into the vacant slot.
abbrev pub occupied : ℕ → SlotInfo → SlotInfo
occupied t w = record w { type_info = some t }

-- What `pdm_card_online` does with good numbers on an empty slot.
card_online_empty :
    (os : Os) (chips : List ℕ) (x ct : ℤ) (s : Slots) (l : Log)
    → is_slot_err x || is_card_type_err ct ≡ false
    → (slot_at s (index x)).type_info ≡ none
    → let i = index x in
      let (r, s', l') = online_empty os chips i (index ct) s (lock (slot i) ∷ lock card_type ∷ l) in
      card_online os chips x ct s l ≡ (r, s', unlock card_type ∷ unlock (slot i) ∷ l')
unfolding card_online
card_online_empty os chips x ct s l good empty = rw (good, empty)

-- A slot that has a card keeps it: a second card is refused, and no callback runs.
pub card_online_full :
    (os : Os) (chips : List ℕ) (x ct : ℤ) (s : Slots) (l : Log) {t : ℕ}
    → is_slot_err x || is_card_type_err ct ≡ false
    → (slot_at s (index x)).type_info ≡ some t
    → let (r, s', l') = card_online os chips x ct s l in (r ≡ eexist) × (s' ≡ s) × (cbs l' ≡ cbs l)
unfolding card_online
card_online_full os chips x ct s l good full = rw (good, full) (refl, refl, refl)

-- What the online callback answers, called with the card type and the slot locked; 0 where the type has
-- none.
abbrev pub cb_answer : Os → Option ℕ → ℕ → ℕ → Log → ℤ
cb_answer os none i base l = pos 0
cb_answer os (some cb) i base l = os (lock (slot i) ∷ lock card_type ∷ l) (online cb i base)

online_call-cb_answer :
    (os : Os) (cb : Option ℕ) (i base : ℕ) (l : Log)
    → (online_call os i base cb (lock (slot i) ∷ lock card_type ∷ l)).0 ≡ cb_answer os cb i base l
unfolding online_call
online_call-cb_answer os none i base l = refl
online_call-cb_answer os (some cb) i base l = refl

-- A card of a good type that comes into an empty slot: the callback of its type, if there is one, is
-- called once, with the slot's number and its chip's address, and its answer is the answer. Where it
-- fails the whole table is as it was; where it does not, and where there is none, the card is in its
-- slot, with its type, and nothing else has changed.
pub card_online_lem :
    (os : Os) (chips : List ℕ) (x ct : ℤ) (s : Slots) (l : Log)
    → is_slot_err x || is_card_type_err ct ≡ false
    → (slot_at s (index x)).type_info ≡ none
    → let i = index x in
      let t = index ct in
      let (r, s', l') = card_online os chips x ct s l in
      let answer = cb_answer os (type_at s t).cb_online i (get_or chips i 0) l in
      (r ≡ answer)
      × (s' ≡ (if is_neg answer then s else put_slot s i (occupied t (slot_at s i))))
      × (cbs l' ≡ online_cbs (type_at s t).cb_online i (get_or chips i 0) (cbs l))
unfolding online_empty
card_online_lem os chips x ct s l good empty =
    let i = index x in
    let t = index ct in
    let answer = online_call-cb_answer os (type_at s t).cb_online i (get_or chips i 0) l in
    rw (card_online_empty os chips x ct s l good empty) (
      answer,
      ap (λ r. if is_neg r then s else put_slot s i (occupied t (slot_at s i))) answer,
      cbs-online_call os i (get_or chips i 0) (type_at s (index ct)).cb_online
          (lock (slot i) ∷ lock card_type ∷ l),
    )

-- `pdm_card_offline` of a card of the type `t`.
pub card_offline_lem :
    (x : ℤ) (s : Slots) (l : Log) {t : ℕ}
    → IsValid s
    → is_slot_err x ≡ false
    → (slot_at s (index x)).type_info ≡ some t
    → let i = index x in
      let (s', l') = card_offline x s l in
      (s' ≡ put_slot s i (vacant (slot_at s i)))
      × (cbs l' ≡ offline_cbs (type_at s t).cb_offline i (cbs l))
unfolding card_offline
card_offline_lem x s l {t} v good full =
    let i = index x in
    let l1 = lock (slot i) ∷ lock card_type ∷ l in
    let l2 = disable_int_reg i (disable_int_reg i l1) in
    rw (good, full, offline_card-ok x t l1 v good) (refl, simp (cbs-offline_call, cbs-int_reg_op))

-- A card that came in without an error and leaves again: its slot is vacant, no other slot and no
-- card type has changed, and the callbacks of its type, where there are any, were called once each,
-- the online callback first.
pub card_offline-card_online :
    (os : Os) (chips : List ℕ) (x ct : ℤ) (s : Slots) (l : Log)
    → IsValid s
    → is_slot_err x || is_card_type_err ct ≡ false
    → (slot_at s (index x)).type_info ≡ none
    → is_neg (card_online os chips x ct s l).0 ≡ false
    → let i = index x in
      let c = type_at s (index ct) in
      let (r, s1, l1) = card_online os chips x ct s l in
      let (s2, l2) = card_offline x s1 l1 in
      (s2 ≡ put_slot s i (vacant (slot_at s i)))
      × (cbs l2 ≡ offline_cbs c.cb_offline i (online_cbs c.cb_online i (get_or chips i 0) (cbs l)))
card_offline-card_online os chips x ct s l v good empty fine =
    let i = index x in
    let w = occupied (index ct) (slot_at s i) in
    let (r, s1, l1) = card_online os chips x ct s l in
    let good_slot : is_slot_err x ≡ false = ground (arith, good) in
    let done = card_online_lem os chips x ct s l good empty in
    let here : s1 ≡ put_slot s i w = rw fine at (rw (sym done.0) at done.1) in
    let at_i : slot_at s1 i ≡ w = rw here (slot_at-put_slot i w v (index-lt x good_slot)) in
    let gone =
      card_offline_lem x s1 l1 (card_online-IsValid os chips x ct l v) good_slot
        (ap (λ (u : SlotInfo). u.type_info) at_i) in
    (
      gone.0
          ∙ rw (at_i, here) (ap (λ xs. record s { slots = xs }) (set-set s.slots i w (vacant w))),
      gone.1 ∙ rw (done.2, here),
    )
