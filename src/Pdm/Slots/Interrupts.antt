-- ===== src/Pdm/Slots/Interrupts.antt =====
-- Interrupts of a slot.
use linux_drv.Prelude.{
  Bool, Bool-cases, List, Option, Option-cases, [], ap, arith, get_or, if◌then◌else◌, inl, inr,
  is_pos, length, none, not, refl, some, suc, zero, ℕ, ◌&&◌, ◌+◌, ◌<◌, ◌==◌, ◌∙◌, ◌∷◌, ◌≡◌,
}
use Prim.Native.Nat.{bit_and}
use mathlib.Core.Path.{subst}
use linux_drv.Card.{etin_slot_max}
use linux_drv.Kernel.{Log, Os, int_mask, isr, lock, schedule_work, slot}
use linux_drv.Pdm.Slots.Callbacks.{cbs, cbs-int_reg_op}
use linux_drv.Pdm.Slots.Inv.{IsValid, slot_at-IsSlot}
use linux_drv.Pdm.Slots.Irq.{has_mask, int_reg_op}
use linux_drv.Pdm.Slots.Isr.{handle_each, handle_slot_int, run_isr, slot_int_handler, take_int}
use linux_drv.Pdm.Slots.State.{SlotInfo, Slots, slot_at}

-- The value last written to a slot's mask bit.
abbrev pub mask_of : ℕ → Log → Option ℕ
mask_of i [] = none
mask_of i (int_mask j val ∷ l) = if i == j then some val else mask_of i l
mask_of i (_ ∷ l) = mask_of i l

-- How often work was scheduled.
abbrev pub scheduled : Log → ℕ
scheduled [] = 0
scheduled (schedule_work i j ∷ l) = suc (scheduled l)
scheduled (_ ∷ l) = scheduled l

pub mask_of-int_reg_op :
    (i val j : ℕ) (l : Log)
    → mask_of i (int_reg_op val j l) ≡ (if has_mask j && i == j then some val else mask_of i l)
mask_of-int_reg_op i val j l = ground arith

scheduled-int_reg_op : (val j : ℕ) (l : Log) → scheduled (int_reg_op val j l) ≡ scheduled l
scheduled-int_reg_op val j l = ground arith

-- The slot `i` has its bit set in the interrupt register.
abbrev pub is_hit : ℕ → List ℕ → ℕ → Bool
is_hit reg bmps i = not (bit_and reg (get_or bmps i 0) == 0)

-- How many of the `n` slots from `i` on have their bit set.
abbrev pub hits : ℕ → List ℕ → ℕ → ℕ → ℕ
hits reg bmps i zero = 0
hits reg bmps i (suc n) =
    if is_hit reg bmps i then suc (hits reg bmps (suc i) n) else hits reg bmps (suc i) n

-- The slots after the interrupt: a slot whose bit is set switches to its other work item.
abbrev pub switched : ℕ → List ℕ → ℕ → List SlotInfo → List SlotInfo
switched reg bmps i [] = []
switched reg bmps i (v ∷ vs) =
    (if is_hit reg bmps i then record v { work_idx = not v.work_idx } else v)
    ∷ switched reg bmps (suc i) vs

pub handle_each_lem :
    (reg : ℕ) (bmps : List ℕ) (i : ℕ) (vs : List SlotInfo) (ret : ℕ) (l : Log)
    → let (ret', vs', l') = handle_each reg bmps i vs ret l in
      (ret' ≡ ret + hits reg bmps i (length vs))
      × (vs' ≡ switched reg bmps i vs)
      × (scheduled l' ≡ scheduled l + hits reg bmps i (length vs))
unfolding handle_each take_int
handle_each_lem reg bmps i [] ret l = (omega arith, refl, omega arith)
handle_each_lem reg bmps i (v ∷ vs) ret l = elim (Bool-cases (is_hit reg bmps i)) [
  | inl hit ↦
      let ih = handle_each_lem reg bmps (suc i) vs (ret + 1) (take_int i v l).1 in
      rw hit (
        omega (arith, ih.0),
        ap (λ ws. record v { work_idx = not v.work_idx } ∷ ws) ih.1,
        omega (arith, ih.2, scheduled-int_reg_op 1 i l),
      )
  | inr miss ↦
      let ih = handle_each_lem reg bmps (suc i) vs ret l in
      rw miss (omega (arith, ih.0), ap (λ ws. v ∷ ws) ih.1, omega (arith, ih.2))
]

pub handle_slot_int_lem :
    (reg : ℕ) (bmps : List ℕ) (s : Slots) (l : Log)
    → let (ret, s', l') = handle_slot_int reg bmps s l in
      (ret ≡ hits reg bmps 0 (length s.slots))
      × (s' ≡ record s { slots = switched reg bmps 0 s.slots })
      × (scheduled l' ≡ scheduled l + ret)
unfolding handle_slot_int
handle_slot_int_lem reg bmps s l =
    let h = handle_each_lem reg bmps 0 s.slots 0 l in
    (omega (arith, h.0), ap (λ ws. record s { slots = ws }) h.1, omega (arith, h.0, h.2))

-- The handler that a slot's work calls.
abbrev pub isr_cbs : SlotInfo → Log → Log
isr_cbs v l = elim v.isr_cb [ none ↦ l | some f ↦ if v.int_enabled then isr f v.isr_arg ∷ l else l ]

-- The mask bit of the slot `i` after its work.
abbrev pub isr_mask : Os → ℕ → SlotInfo → Log → Option ℕ
isr_mask os i v l = elim v.isr_cb [
  | none ↦ mask_of i l
  | some f ↦
      if v.int_enabled && is_pos (os l (isr f v.isr_arg)) && has_mask i then some 0 else mask_of i l
]

pub cbs-run_isr : (os : Os) (v : SlotInfo) (l : Log) → cbs (run_isr os v l) ≡ isr_cbs v (cbs l)
unfolding run_isr
cbs-run_isr os v l = elim (Option-cases v.isr_cb) [
  | inl e ↦ rw e
  | inr (g, e) ↦ elim (Bool-cases v.int_enabled) [
    | inr off ↦ rw (e, off)
    | inl on ↦ elim (Bool-cases (is_pos (os l (isr g v.isr_arg)))) [
      | inl again ↦ rw (e, on, again) (cbs-int_reg_op 0 v.slot_idx (isr g v.isr_arg ∷ l))
      | inr quit ↦ rw (e, on, quit)
    ]
  ]
]

mask_of-run_isr_own :
    (os : Os) (v : SlotInfo) (l : Log)
    → mask_of v.slot_idx (run_isr os v l) ≡ isr_mask os v.slot_idx v l
unfolding run_isr
mask_of-run_isr_own os v l = elim (Option-cases v.isr_cb) [
  | inl e ↦ rw e
  | inr (g, e) ↦ elim (Bool-cases v.int_enabled) [
    | inr off ↦ rw (e, off)
    | inl on ↦ elim (Bool-cases (is_pos (os l (isr g v.isr_arg)))) [
      | inl again ↦
          rw (e, on, again)
            (mask_of-int_reg_op v.slot_idx 0 v.slot_idx (isr g v.isr_arg ∷ l) ∙ ground arith)
      | inr quit ↦ rw (e, on, quit)
    ]
  ]
]

-- A slot's work calls the slot's handler with its argument when the slot has one and its interrupt
-- is enabled, and calls nothing otherwise; and it clears the mask bit, where the slot has one,
-- exactly when it called a handler that answered more than 0.
pub slot_int_handler_lem :
    (os : Os) (i : ℕ) (s : Slots) (l : Log)
    → IsValid s
    → i < etin_slot_max
    → let v = slot_at s i in
      let k = slot_int_handler os i s l in
      (cbs k ≡ isr_cbs v (cbs l)) × (mask_of i k ≡ isr_mask os i v (lock (slot i) ∷ l))
unfolding slot_int_handler
slot_int_handler_lem os i s l v lt =
    let w = slot_at s i in
    let l1 = lock (slot i) ∷ l in
    (
      cbs-run_isr os w l1,
      subst (λ n. mask_of n (run_isr os w l1) ≡ isr_mask os n w l1)
          (slot_at-IsSlot i v lt).knows_index (mask_of-run_isr_own os w l1),
    )
