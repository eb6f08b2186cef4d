-- ===== src/Pdm/Slots/Masked.antt =====
-- A slot whose interrupt was disabled stays masked until somebody enables it again.
use linux_drv.Prelude.{
  Bool, Bool-cases, List, Option, Option-cases, [], ap, arith, false, get_or, get_or-set_ne, inl,
  inr, is_pos, none, not, refl, same_ref, some, suc, zero, ℕ, ℤ, ◌&&◌, ◌+◌, ◌<◌, ◌==◌, ◌∙◌, ◌∷◌,
  ◌≡◌, ◌≢◌,
}
use linux_drv.Card.{etin_slot_max, index, is_slot_err}
use linux_drv.Kernel.{Log, Os, isr, lock, offline, slot, unlock}
use linux_drv.Pdm.Slots.Effects.{slot_at-put_slot}
use linux_drv.Pdm.Slots.Interrupts.{is_hit, mask_of, mask_of-int_reg_op, switched}
use linux_drv.Pdm.Slots.Inv.{IsValid}
use linux_drv.Pdm.Slots.Isr.{handle_each, run_isr, take_int}
use linux_drv.Pdm.Slots.Reach.{Op, unmask}
use linux_drv.Pdm.Slots.Registry.{reg_each, reg_visit, unreg_each}
use linux_drv.Pdm.Slots.State.{SlotInfo, Slots, fresh_slot, put_slot, slot_at}

-- The interrupt of the slot `i` is off, and its mask bit was last written as 1.
pub record IsMasked (i : ℕ) (s : Slots) (l : Log) : Type 0 where
  pub off : (slot_at s i).int_enabled ≡ false
  pub masked : mask_of i l ≡ some 1

-- The call enables the slot's interrupt.
abbrev pub unmasks : ℕ → Op → Bool
unmasks i (unmask x) = not (is_slot_err x) && index x == i
unmasks i _ = false

-- What holds of the state after a call that does not fault.
abbrev pub After : (Slots → Log → Type 0) → Option (Slots × Log) → Type 0
After P none = Unit
After P (some (s, l)) = P s l

slot_at-put_slot_ne :
    (s : Slots) (i j : ℕ) (w : SlotInfo) → j ≢ i → slot_at (put_slot s j w) i ≡ slot_at s i
slot_at-put_slot_ne s i j w ne = get_or-set_ne s.slots j i w (fresh_slot i) ne

-- An update of one entry that does not turn its interrupt on.
pub put_slot-off :
    {s : Slots} (i j : ℕ) (w : SlotInfo)
    → IsValid s
    → i < etin_slot_max
    → (j ≡ i → w.int_enabled ≡ false)
    → (slot_at s i).int_enabled ≡ false
    → (slot_at (put_slot s j w) i).int_enabled ≡ false
put_slot-off {s} i j w v lt same off = elim (Bool-cases (j == i)) [
  | inl e ↦ let here : j ≡ i = ground arith in rw here (rw (slot_at-put_slot i w v lt) (same here))
  | inr e ↦ rw (slot_at-put_slot_ne s i j w (ground arith)) off
]

mask_of-reg_visit :
    (os : Os) (n t cb i base : ℕ) (v : SlotInfo) (ret : ℤ) (l : Log)
    → mask_of n (reg_visit os t cb i base v ret l).1 ≡ mask_of n l
unfolding reg_visit
mask_of-reg_visit os n t cb i base v ret l = elim (Bool-cases (same_ref v.type_info t)) [
  | inl e ↦ rw e
  | inr e ↦ rw e
]

pub mask_of-reg_each :
    (os : Os) (n : ℕ) (chips : List ℕ) (t cb i : ℕ) (vs : List SlotInfo) (ret : ℤ) (l : Log)
    → mask_of n (reg_each os chips t cb i vs ret l).1 ≡ mask_of n l
unfolding reg_each
mask_of-reg_each os n chips t cb i [] ret l = refl
mask_of-reg_each os n chips t cb i (v ∷ vs) ret l =
    let (r, l') = reg_visit os t cb i (get_or chips i 0) v ret l in
    mask_of-reg_each os n chips t cb (suc i) vs r l'
    ∙ mask_of-reg_visit os n t cb i (get_or chips i 0) v ret l

pub mask_of-unreg_each :
    (n t : ℕ) (cb : Option ℕ) (i : ℕ) (vs : List SlotInfo) (l k : Log)
    → unreg_each t cb i vs l ≡ some k
    → mask_of n k ≡ mask_of n l
unfolding unreg_each
mask_of-unreg_each n t cb i [] l k e = ap (mask_of n) {x = k} {y = l} (cc)
mask_of-unreg_each n t none i (v ∷ vs) l k e = elim (Bool-cases (same_ref v.type_info t)) [
  | inl hit ↦ absurd (cc (rw hit at e))
  | inr miss ↦
      mask_of-unreg_each n t none (suc i) vs (unlock (slot i) ∷ lock (slot i) ∷ l) k (rw miss at e)
]
mask_of-unreg_each n t (some cb) i (v ∷ vs) l k e = elim (Bool-cases (same_ref v.type_info t)) [
  | inl hit ↦
      mask_of-unreg_each n t (some cb) (suc i) vs
        (unlock (slot i) ∷ offline cb i ∷ lock (slot i) ∷ l) k (rw hit at e)
  | inr miss ↦
      mask_of-unreg_each n t (some cb) (suc i) vs (unlock (slot i) ∷ lock (slot i) ∷ l) k
        (rw miss at e)
]

-- The handler's work leaves a slot alone that is not its own, or whose interrupt is off.
pub mask_of-run_isr :
    (os : Os) (n : ℕ) (v : SlotInfo) (l : Log)
    → (v.slot_idx ≡ n → v.int_enabled ≡ false)
    → mask_of n (run_isr os v l) ≡ mask_of n l
unfolding run_isr
mask_of-run_isr os n v l own = elim (Option-cases v.isr_cb) [
  | inl e ↦ rw e
  | inr (g, e) ↦ elim (Bool-cases v.int_enabled) [
    | inr off ↦ rw (e, off)
    | inl on ↦ elim (Bool-cases (is_pos (os l (isr g v.isr_arg)))) [
      | inl again ↦
          rw (e, on, again) (mask_of-int_reg_op n 0 v.slot_idx (isr g v.isr_arg ∷ l) ∙ ground arith)
      | inr quit ↦ rw (e, on, quit)
    ]
  ]
]

pub masked-handle_each :
    (n reg : ℕ) (bmps : List ℕ) (i : ℕ) (vs : List SlotInfo) (ret : ℕ) (l : Log)
    → mask_of n l ≡ some 1
    → mask_of n (handle_each reg bmps i vs ret l).2 ≡ some 1
unfolding handle_each take_int
masked-handle_each n reg bmps i [] ret l h = h
masked-handle_each n reg bmps i (v ∷ vs) ret l h = elim (Bool-cases (is_hit reg bmps i)) [
  | inl hit ↦ rw hit (
      masked-handle_each n reg bmps (suc i) vs (ret + 1) (take_int i v l).1
        (ground (arith, mask_of-int_reg_op n 1 i l)))
  | inr miss ↦ rw miss (masked-handle_each n reg bmps (suc i) vs ret l h)
]

pub enabled-switched :
    (reg : ℕ) (bmps : List ℕ) (i n : ℕ) (vs : List SlotInfo) (d : SlotInfo)
    → (get_or (switched reg bmps i vs) n d).int_enabled ≡ (get_or vs n d).int_enabled
enabled-switched reg bmps i n [] d = refl
enabled-switched reg bmps i zero (v ∷ vs) d = ground arith
enabled-switched reg bmps i (suc n) (v ∷ vs) d = enabled-switched reg bmps (suc i) n vs d
