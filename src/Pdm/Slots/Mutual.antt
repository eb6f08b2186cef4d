-- ===== src/Pdm/Slots/Mutual.antt =====
-- The locks of pdm_drv_ext.c.
use linux_drv.Prelude.{
  ==_self, Bool-cases, List, Option, Option-cases, [], false, get_or, if◌then◌else◌, inl, inr,
  is_pos, none, not, same_ref, some, suc, ℕ, ℤ, ◌+◌, ◌==◌, ◌∷◌, ◌≡◌,
}
use Prim.Native.Nat.{bit_and}
use mathlib.Core.Path.{subst}
use linux_drv.Card.{index, is_slot_err}
use linux_drv.Kernel.{Log, Mutex, Os, held, holds, int_reg, isr, lock, schedule_work, slot, unlock}
use linux_drv.Pdm.Slots.Cards.{offline_call, offline_card, online_call, online_empty}
use linux_drv.Pdm.Slots.Irq.{
  disable_int, disable_int_reg, enable_int, free_irq, has_mask, int_reg_op,
}
use linux_drv.Pdm.Slots.Isr.{handle_each, run_isr, take_int}
use linux_drv.Pdm.Slots.Registry.{reg_each, reg_visit, unreg_each}
use linux_drv.Pdm.Slots.State.{SlotInfo, Slots, type_at}

pub int_reg_op-held :
    (val i : ℕ) (l : Log) {ms : List Mutex}
    → holds int_reg ms ≡ false
    → held l ≡ some ms
    → held (int_reg_op val i l) ≡ some ms
int_reg_op-held val i l idle h = elim (Bool-cases (has_mask i)) [
  | inl e ↦ rw (e, h, idle)
  | inr e ↦ rw (e, h)
]

reg_visit-held :
    (os : Os) (t cb i base : ℕ) (v : SlotInfo) (ret : ℤ) (l : Log) {ms : List Mutex}
    → holds (slot i) ms ≡ false
    → held l ≡ some ms
    → held (reg_visit os t cb i base v ret l).1 ≡ some ms
unfolding reg_visit
reg_visit-held os t cb i base v ret l idle h = elim (Bool-cases (same_ref v.type_info t)) [
  | inl e ↦ rw (e, h, idle, ==_self i)
  | inr e ↦ rw (e, h, idle, ==_self i)
]

pub reg_each-held :
    (os : Os) (chips : List ℕ) (t cb i : ℕ) (vs : List SlotInfo) (ret : ℤ) (l : Log)
    {ms : List Mutex}
    → ((j : ℕ) → holds (slot j) ms ≡ false)
    → held l ≡ some ms
    → held (reg_each os chips t cb i vs ret l).1 ≡ some ms
unfolding reg_each
reg_each-held os chips t cb i [] ret l idle h = h
reg_each-held os chips t cb i (v ∷ vs) ret l idle h =
    let (r, l') = reg_visit os t cb i (get_or chips i 0) v ret l in
    reg_each-held os chips t cb (suc i) vs r l' idle
      (reg_visit-held os t cb i (get_or chips i 0) v ret l (idle i) h)

pub unreg_each-held :
    (t : ℕ) (cb : Option ℕ) (i : ℕ) (vs : List SlotInfo) (l l' : Log) {ms : List Mutex}
    → ((j : ℕ) → holds (slot j) ms ≡ false)
    → held l ≡ some ms
    → unreg_each t cb i vs l ≡ some l'
    → held l' ≡ some ms
unfolding unreg_each
unreg_each-held t cb i [] l l' {ms} idle h e = subst (λ k. held k ≡ some ms) {x = l} {y = l'} (cc) h
unreg_each-held t none i (v ∷ vs) l l' idle h e = elim (Bool-cases (same_ref v.type_info t)) [
  | inl hit ↦ absurd (cc (rw hit at e))
  | inr miss ↦
      unreg_each-held t none (suc i) vs (unlock (slot i) ∷ lock (slot i) ∷ l) l' idle
        (rw (h, idle i, ==_self i)) (rw miss at e)
]
unreg_each-held t (some off) i (v ∷ vs) l l' idle h e =
    unreg_each-held t (some off) (suc i) vs _ l' idle
      (elim (Bool-cases (same_ref v.type_info t)) [
        | inl hit ↦ rw (hit, h, idle i, ==_self i)
        | inr miss ↦ rw (miss, h, idle i, ==_self i)
      ])
      e

-- The operations that take only the spin lock of the mask register, which is not held.
module _ {ms : List Mutex} (f : holds int_reg ms ≡ false) where
  pub disable_int-held :
      (x : ℤ) (s : Slots) (l : Log) → held l ≡ some ms → held (disable_int x s l).2 ≡ some ms
  unfolding disable_int
  disable_int-held x s l h = elim (Bool-cases (is_slot_err x)) [
    | inl bad ↦ rw bad h
    | inr good ↦ rw good (int_reg_op-held 1 (index x) l f h)
  ]

  pub enable_int-held :
      (x : ℤ) (s : Slots) (l : Log) → held l ≡ some ms → held (enable_int x s l).2 ≡ some ms
  unfolding enable_int
  enable_int-held x s l h = elim (Bool-cases (is_slot_err x)) [
    | inl bad ↦ rw bad h
    | inr good ↦ rw good (int_reg_op-held 0 (index x) l f h)
  ]

  pub free_irq-held :
      (x : ℤ) (s : Slots) (l : Log) → held l ≡ some ms → held (free_irq x s l).1 ≡ some ms
  unfolding free_irq
  free_irq-held x s l h = elim (Bool-cases (is_slot_err x)) [
    | inl bad ↦ rw bad h
    | inr good ↦ rw good (disable_int-held x s l h)
  ]

  pub offline_call-held :
      (cb : Option ℕ) (i : ℕ) (l : Log) → held l ≡ some ms → held (offline_call cb i l) ≡ some ms
  unfolding offline_call
  offline_call-held none i l h = h
  offline_call-held (some cb) i l h = rw h

  pub offline_card-held :
      (x : ℤ) (t : ℕ) (s : Slots) (l : Log)
      → held l ≡ some ms
      → held (offline_card x t s l).1 ≡ some ms
  unfolding offline_card
  offline_card-held x t s l h =
      let (_, s1, l1) = disable_int x s l in
      let (s2, l2) = free_irq x s1 l1 in
      offline_call-held (type_at s2 t).cb_offline (index x) l2
        (free_irq-held x s1 l1 (disable_int-held x s l h))

  pub online_call-held :
      (os : Os) (i base : ℕ) (cb : Option ℕ) (l : Log)
      → held l ≡ some ms
      → held (online_call os i base cb l).1 ≡ some ms
  unfolding online_call
  online_call-held os i base none l h = h
  online_call-held os i base (some cb) l h = rw h

  pub online_empty-held :
      (os : Os) (chips : List ℕ) (i t : ℕ) (s : Slots) (l : Log)
      → held l ≡ some ms
      → held (online_empty os chips i t s l).2 ≡ some ms
  unfolding online_empty
  online_empty-held os chips i t s l h =
      online_call-held os i (get_or chips i 0) (type_at s t).cb_online l h

  work-held : (i j : ℕ) (l : Log) → held l ≡ some ms → held (schedule_work i j ∷ l) ≡ some ms
  work-held i j l h = rw h

  pub take_int-held :
      (i : ℕ) (v : SlotInfo) (l : Log) → held l ≡ some ms → held (take_int i v l).1 ≡ some ms
  unfolding take_int
  take_int-held i v l h =
      work-held i (if v.work_idx then 1 else 0) (disable_int_reg i l) (int_reg_op-held 1 i l f h)

  pub handle_each-held :
      (reg : ℕ) (bmps : List ℕ) (i : ℕ) (vs : List SlotInfo) (ret : ℕ) (l : Log)
      → held l ≡ some ms
      → held (handle_each reg bmps i vs ret l).2 ≡ some ms
  unfolding handle_each
  handle_each-held reg bmps i [] ret l h = h
  handle_each-held reg bmps i (v ∷ vs) ret l h =
      elim (Bool-cases (not (bit_and reg (get_or bmps i 0) == 0))) [
        | inl hit ↦ rw hit (
            handle_each-held reg bmps (suc i) vs (ret + 1) (take_int i v l).1
              (take_int-held i v l h))
        | inr miss ↦ rw miss (handle_each-held reg bmps (suc i) vs ret l h)
      ]

  pub run_isr-held :
      (os : Os) (v : SlotInfo) (l : Log) → held l ≡ some ms → held (run_isr os v l) ≡ some ms
  unfolding run_isr
  run_isr-held os v l h = elim (Option-cases v.isr_cb) [
    | inl e ↦ rw e h
    | inr (g, e) ↦ elim (Bool-cases v.int_enabled) [
      | inr off ↦ rw (e, off) h
      | inl on ↦ elim (Bool-cases (is_pos (os l (isr g v.isr_arg)))) [
        | inl again ↦
            rw (e, on, again) (int_reg_op-held 0 v.slot_idx (isr g v.isr_arg ∷ l) f (rw h))
        | inr quit ↦ rw (e, on, quit, h)
      ]
    ]
  ]
