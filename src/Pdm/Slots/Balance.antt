-- ===== src/Pdm/Slots/Balance.antt =====
-- Each operation of pdm_drv_ext.c gives back the locks that it takes.
use linux_drv.Prelude.{
  Bool-cases, List, Option, Option-cases, arith, false, inl, inr, is_null, none, not, pos, some, ℕ,
  ℤ, ◌||◌, ◌∷◌, ◌≡◌,
}
use linux_drv.Card.{index, is_card_type_err, is_slot_err}
use linux_drv.Kernel.{
  Log, Mutex, Os, card_type, held, held-lock, held-unlock, holds, int_reg, lock, slot, unlock,
}
use linux_drv.Pdm.Slots.Cards.{card_offline, card_online, offline_card, online_empty}
use linux_drv.Pdm.Slots.Irq.{request_irq}
use linux_drv.Pdm.Slots.Isr.{handle_slot_int, run_isr, slot_int_handler}
use linux_drv.Pdm.Slots.Mutual.{
  disable_int-held, enable_int-held, free_irq-held, handle_each-held, offline_card-held,
  online_empty-held, reg_each-held, run_isr-held, unreg_each-held,
}
use linux_drv.Pdm.Slots.Reach.{
  Op, go_offline, go_online, interrupt, mask, register, release, request, step, unmask, unregister,
  work,
}
use linux_drv.Pdm.Slots.Registry.{
  is_registered, reg_checked, reg_each, reg_online_offline_cb, unreg_checked, unreg_each,
  unreg_online_offline_cb,
}
use linux_drv.Pdm.Slots.State.{DrvVsnInfo, Slots, slot_at, type_at}

-- None of the locks of pdm_drv_ext.c is held.
pub record IsFree (ms : List Mutex) : Type 0 where
  pub type_free : holds card_type ms ≡ false
  pub reg_free : holds int_reg ms ≡ false
  pub slot_free : (i : ℕ) → holds (slot i) ms ≡ false

-- After a call that does not fault, the locks `ms` are held.
abbrev pub Releases : List Mutex → Option (Slots × Log) → Type 0
Releases ms none = Unit
Releases ms (some (s, l)) = held l ≡ some ms

module _ {ms : List Mutex} (f : IsFree ms) where
  reg-held :
      (os : Os) (chips : List ℕ) (ct : ℤ) (on off : Option ℕ) (d : DrvVsnInfo) (s : Slots) (l : Log)
      → held l ≡ some ms
      → held (reg_online_offline_cb os chips ct on off d s l).2 ≡ some ms
  unfolding reg_online_offline_cb reg_checked
  reg-held os chips ct none off d s l h = h
  reg-held os chips ct (some on) none d s l h = h
  reg-held os chips ct (some on) (some off) d s l h =
      let t = index ct in
      let h1 = held-lock card_type l h f.type_free in
      let each =
        reg_each-held os chips t on 0 s.slots (pos 0) (lock card_type ∷ l) f.slot_free h1 in
      elim (Bool-cases (is_card_type_err ct)) [
        | inl bad ↦ rw bad h
        | inr good ↦ elim (Bool-cases (is_registered (type_at s t))) [
          | inl old ↦ rw (good, old) (held-unlock card_type (lock card_type ∷ l) h1)
          | inr new ↦
              rw (good, new)
                (held-unlock card_type
                  (reg_each os chips t on 0 s.slots (pos 0) (lock card_type ∷ l)).1 each)
        ]
      ]

  unreg-held :
      (ct : ℤ) (s : Slots) (l : Log)
      → held l ≡ some ms
      → Releases ms (unreg_online_offline_cb ct s l)
  unfolding unreg_online_offline_cb unreg_checked
  unreg-held ct s l h =
      let t = index ct in
      let off = (type_at s t).cb_offline in
      elim (Bool-cases (is_card_type_err ct)) [
        | inl bad ↦ rw bad h
        | inr good ↦ elim (Option-cases (unreg_each t off 0 s.slots (lock card_type ∷ l))) [
          | inl fault ↦ rw (good, fault, unreg_checked) tt
          | inr (k, fine) ↦
              rw (good, fine, unreg_checked)
                (held-unlock card_type k (
                  unreg_each-held t off 0 s.slots (lock card_type ∷ l) k f.slot_free
                    (held-lock card_type l h f.type_free) fine))
        ]
      ]

  request_irq-held :
      (x : ℤ) (g : Option ℕ) (arg : ℕ) (s : Slots) (l : Log)
      → held l ≡ some ms
      → held (request_irq x g arg s l).2 ≡ some ms
  unfolding request_irq
  request_irq-held x none arg s l h = h
  request_irq-held x (some g) arg s l h = ground arith

  handle_slot_int-held :
      (reg : ℕ) (bmps : List ℕ) (s : Slots) (l : Log)
      → held l ≡ some ms
      → held (handle_slot_int reg bmps s l).2 ≡ some ms
  unfolding handle_slot_int
  handle_slot_int-held reg bmps s l h = handle_each-held f.reg_free reg bmps 0 s.slots 0 l h

  slot_int_handler-held :
      (os : Os) (i : ℕ) (s : Slots) (l : Log)
      → held l ≡ some ms
      → held (slot_int_handler os i s l) ≡ some ms
  unfolding slot_int_handler
  slot_int_handler-held os i s l h =
      held-unlock (slot i) (run_isr os (slot_at s i) (lock (slot i) ∷ l)) (
        run_isr-held f.reg_free os (slot_at s i) (lock (slot i) ∷ l)
          (held-lock (slot i) l h (f.slot_free i)))

  -- The two locks under which a card comes or goes.
  card_locks :
      (i : ℕ) (l : Log)
      → held l ≡ some ms
      → held (lock (slot i) ∷ lock card_type ∷ l) ≡ some (slot i ∷ card_type ∷ ms)
  card_locks i l h =
      held-lock (slot i) (lock card_type ∷ l) (held-lock card_type l h f.type_free) (f.slot_free i)

  card_unlocks :
      (i : ℕ) (l : Log)
      → held l ≡ some (slot i ∷ card_type ∷ ms)
      → held (unlock card_type ∷ unlock (slot i) ∷ l) ≡ some ms
  card_unlocks i l h = held-unlock card_type (unlock (slot i) ∷ l) (held-unlock (slot i) l h)

  card_online-held :
      (os : Os) (chips : List ℕ) (x ct : ℤ) (s : Slots) (l : Log)
      → held l ≡ some ms
      → held (card_online os chips x ct s l).2 ≡ some ms
  unfolding card_online
  card_online-held os chips x ct s l h =
      let i = index x in
      let l1 = lock (slot i) ∷ lock card_type ∷ l in
      let h1 = card_locks i l h in
      elim (Bool-cases (is_slot_err x || is_card_type_err ct)) [
        | inl bad ↦ rw bad h
        | inr good ↦ elim (Bool-cases (not (is_null (slot_at s i).type_info))) [
          | inl full ↦ rw (good, full) (card_unlocks i l1 h1)
          | inr empty ↦
              rw (good, empty)
                (card_unlocks i (online_empty os chips i (index ct) s l1).2
                  (online_empty-held f.reg_free os chips i (index ct) s l1 h1))
        ]
      ]

  card_offline-held :
      (x : ℤ) (s : Slots) (l : Log) → held l ≡ some ms → held (card_offline x s l).1 ≡ some ms
  unfolding card_offline
  card_offline-held x s l h =
      let i = index x in
      let l1 = lock (slot i) ∷ lock card_type ∷ l in
      let h1 = card_locks i l h in
      elim (Bool-cases (is_slot_err x)) [
        | inl bad ↦ rw bad h
        | inr good ↦ elim (Option-cases (slot_at s i).type_info) [
          | inl e ↦ rw (good, e) (card_unlocks i l1 h1)
          | inr (t, e) ↦
              rw (good, e)
                (card_unlocks i (offline_card x t s l1).1
                  (offline_card-held f.reg_free x t s l1 h1))
        ]
      ]

  -- A step of the module that does not fault, entered with none of its locks held, releases every lock
  -- that it takes, in the reverse order, and never takes one that it holds.
  pub step-held :
      (os : Os) (chips bmps : List ℕ) (op : Op) (s : Slots) (l : Log)
      → held l ≡ some ms
      → Releases ms (step os chips bmps op (s, l))
  unfolding step
  step-held os chips bmps (register ct on off d) s l h = reg-held os chips ct on off d s l h
  step-held os chips bmps (unregister ct) s l h = unreg-held ct s l h
  step-held os chips bmps (go_online x ct) s l h = card_online-held os chips x ct s l h
  step-held os chips bmps (go_offline x) s l h = card_offline-held x s l h
  step-held os chips bmps (request x g arg) s l h = request_irq-held x g arg s l h
  step-held os chips bmps (release x) s l h = free_irq-held f.reg_free x s l h
  step-held os chips bmps (unmask x) s l h = enable_int-held f.reg_free x s l h
  step-held os chips bmps (mask x) s l h = disable_int-held f.reg_free x s l h
  step-held os chips bmps (interrupt r) s l h = handle_slot_int-held r bmps s l h
  step-held os chips bmps (work i) s l h = slot_int_handler-held os i s l h
