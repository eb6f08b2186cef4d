-- ===== src/Pdm/Slots/Reach.antt =====
-- The slot table under any sequence of the calls that the kernel and the other drivers make.
use linux_drv.Prelude.{
  AllFrom, AllFrom-set, Bool-cases, List, Option, Option-cases, [], ap, arith, get_or,
  if◌then◌else◌, inl, inr, length, length-set, none, not, refl, set, some, suc, ℕ, ℤ, ◌+◌, ◌==◌,
  ◌∙◌, ◌∷◌, ◌≡◌,
}
use Prim.Native.Nat.{bit_and}
use mathlib.Core.Path.{subst}
use linux_drv.Card.{index, is_slot_err}
use linux_drv.Kernel.{Log, Os, card_type, lock, slot}
use linux_drv.Pdm.Slots.Cards.{card_offline, card_online}
use linux_drv.Pdm.Slots.Effects.{offline_card-ok, vacant}
use linux_drv.Pdm.Slots.Inv.{
  IsPaired, IsSlot, IsValid, card_online-IsValid, ctor_mng_info-IsValid, disable_int-IsValid,
  enable_int-IsValid, free_irq-IsValid, index-lt, put_slot-IsValid, request_irq-IsValid,
  slot_at-IsSlot,
}
use linux_drv.Pdm.Slots.Irq.{disable_int, enable_int, free_irq, request_irq}
use linux_drv.Pdm.Slots.Isr.{handle_each, handle_slot_int, slot_int_handler, take_int}
use linux_drv.Pdm.Slots.Registry.{
  reg_checked, reg_online_offline_cb, unreg_checked, unreg_online_offline_cb,
}
use linux_drv.Pdm.Slots.State.{
  CardTypeInfo, DrvVsnInfo, SlotInfo, Slots, ctor_mng_info, null_type, null_vsn, slot_at,
}

-- A card that leaves keeps the invariant.
card_offline-IsValid : (x : ℤ) {s : Slots} (l : Log) → IsValid s → IsValid (card_offline x s l).0
unfolding card_offline
card_offline-IsValid x {s} l v = elim (Bool-cases (is_slot_err x)) [
  | inl bad ↦ rw bad v
  | inr good ↦ elim (Option-cases (slot_at s (index x)).type_info) [
    | inl e ↦ rw (good, e) v
    | inr (t, e) ↦
        rw (good, e, offline_card-ok x t (lock (slot (index x)) ∷ lock card_type ∷ l) v good)
          (put_slot-IsValid (index x) (vacant (slot_at s (index x))) v
            (ground (arith, slot_at-IsSlot (index x) v (index-lt x good))))
  ]
]

put_type-IsValid :
    {s : Slots} (t : ℕ) (c : CardTypeInfo) (d : DrvVsnInfo)
    → IsValid s
    → IsPaired t c
    → IsValid (record s { types = set s.types t c; vsns = set s.vsns t d })
put_type-IsValid {s} t c d v h = record {
  types_len = rw length-set v.types_len;
  vsns_len = rw length-set v.vsns_len;
  slots_len = v.slots_len;
  paired = AllFrom-set IsPaired 0 t s.types c v.paired h;
  slots_ok = v.slots_ok;
}

reg-IsValid :
    (os : Os) (chips : List ℕ) (ct : ℤ) (on off : Option ℕ) (d : DrvVsnInfo) {s : Slots} (l : Log)
    → IsValid s
    → IsValid (reg_online_offline_cb os chips ct on off d s l).1
unfolding reg_online_offline_cb reg_checked
reg-IsValid os chips ct none off d l v = v
reg-IsValid os chips ct (some on) none d l v = v
reg-IsValid os chips ct (some on) (some off) d l v =
    ground (
      arith,
      put_type-IsValid (index ct) (record { cb_online = some on; cb_offline = some off }) d v,
    )

unreg-IsValid :
    (ct : ℤ) {s s' : Slots} (l l' : Log)
    → IsValid s
    → unreg_online_offline_cb ct s l ≡ some (s', l')
    → IsValid s'
unfolding unreg_online_offline_cb unreg_checked
unreg-IsValid ct l l' v e = ground (arith, put_type-IsValid (index ct) null_type null_vsn v refl)

handle_each-IsSlot :
    (reg : ℕ) (bmps : List ℕ) (i : ℕ) (vs : List SlotInfo) (ret : ℕ) (l : Log)
    → AllFrom IsSlot i vs
    → AllFrom IsSlot i (handle_each reg bmps i vs ret l).1
      × (length (handle_each reg bmps i vs ret l).1 ≡ length vs)
unfolding handle_each take_int
handle_each-IsSlot reg bmps i [] ret l v = (tt, refl)
handle_each-IsSlot reg bmps i (w ∷ ws) ret l v =
    let hit = not (bit_and reg (get_or bmps i 0) == 0) in
    let ih =
      handle_each-IsSlot reg bmps (suc i) ws (if hit then ret + 1 else ret)
        (if hit then (take_int i w l).1 else l) v.1 in
    elim (Bool-cases hit) [
      | inl e ↦ rw e ((ground (arith, v.0), (rw e at ih).0), ap suc (rw e at ih).1)
      | inr e ↦ rw e ((v.0, (rw e at ih).0), ap suc (rw e at ih).1)
    ]

handle_slot_int-IsValid :
    (reg : ℕ) (bmps : List ℕ) {s : Slots} (l : Log)
    → IsValid s
    → IsValid (handle_slot_int reg bmps s l).1
unfolding handle_slot_int
handle_slot_int-IsValid reg bmps {s} l v =
    let (ok, len) = handle_each-IsSlot reg bmps 0 s.slots 0 l v.slots_ok in
    record {
      types_len = v.types_len;
      vsns_len = v.vsns_len;
      slots_len = len ∙ v.slots_len;
      paired = v.paired;
      slots_ok = ok;
    }

-- The calls: other drivers register, ask for interrupts and mask them; the module brings cards in
-- and out; an interrupt is scanned for, and a slot's work runs.
pub data Op : Type 0 where
  register : ℤ → Option ℕ → Option ℕ → DrvVsnInfo → Op
  unregister : ℤ → Op
  go_online : ℤ → ℤ → Op
  go_offline : ℤ → Op
  request : ℤ → Option ℕ → ℕ → Op
  release : ℤ → Op
  unmask mask : ℤ → Op
  interrupt : ℕ → Op
  work : ℕ → Op

-- `none` is a call of a null function pointer. `bmps` is `s_int_reg_bmp`.
unfoldable pub step : Os → List ℕ → List ℕ → Op → Slots × Log → Option (Slots × Log)
step os chips bmps (register ct on off d) (s, l) =
    let (_, s', l') = reg_online_offline_cb os chips ct on off d s l in some (s', l')
step os chips bmps (unregister ct) (s, l) = unreg_online_offline_cb ct s l
step os chips bmps (go_online x ct) (s, l) =
    let (_, s', l') = card_online os chips x ct s l in some (s', l')
step os chips bmps (go_offline x) (s, l) = some (card_offline x s l)
step os chips bmps (request x f arg) (s, l) =
    let (_, s', l') = request_irq x f arg s l in some (s', l')
step os chips bmps (release x) (s, l) = some (free_irq x s l)
step os chips bmps (unmask x) (s, l) = let (_, s', l') = enable_int x s l in some (s', l')
step os chips bmps (mask x) (s, l) = let (_, s', l') = disable_int x s l in some (s', l')
step os chips bmps (interrupt r) (s, l) =
    let (_, s', l') = handle_slot_int r bmps s l in some (s', l')
step os chips bmps (work i) (s, l) = some (s, slot_int_handler os i s l)

step-IsValid :
    (os : Os) (chips bmps : List ℕ) (op : Op) (s s' : Slots) (l l' : Log)
    → IsValid s
    → step os chips bmps op (s, l) ≡ some (s', l')
    → IsValid s'
unfolding step
step-IsValid os chips bmps (register ct on off d) s s' l l' v e =
    subst IsValid (cc) (reg-IsValid os chips ct on off d l v)
step-IsValid os chips bmps (unregister ct) s s' l l' v e = unreg-IsValid ct l l' v e
step-IsValid os chips bmps (go_online x ct) s s' l l' v e =
    subst IsValid (cc) (card_online-IsValid os chips x ct l v)
step-IsValid os chips bmps (go_offline x) s s' l l' v e =
    subst IsValid (cc) (card_offline-IsValid x l v)
step-IsValid os chips bmps (request x f arg) s s' l l' v e =
    subst IsValid (cc) (request_irq-IsValid x f arg l v)
step-IsValid os chips bmps (release x) s s' l l' v e = subst IsValid (cc) (free_irq-IsValid x l v)
step-IsValid os chips bmps (unmask x) s s' l l' v e = subst IsValid (cc) (enable_int-IsValid x l v)
step-IsValid os chips bmps (mask x) s s' l l' v e = subst IsValid (cc) (disable_int-IsValid x l v)
step-IsValid os chips bmps (interrupt r) s s' l l' v e =
    subst IsValid (cc) (handle_slot_int-IsValid r bmps l v)
step-IsValid os chips bmps (work i) s s' l l' v e = subst IsValid (cc) v

-- The calls one after another, up to a fault.
unfoldable pub run : Os → List ℕ → List ℕ → List Op → Slots × Log → Option (Slots × Log)
run os chips bmps [] s = some s
run os chips bmps (op ∷ ops) s = elim (step os chips bmps op s) [
  | none ↦ none
  | some s' ↦ run os chips bmps ops s'
]

run_from-IsValid :
    (os : Os) (chips bmps : List ℕ) (ops : List Op) (s s' : Slots) (l l' : Log)
    → IsValid s
    → run os chips bmps ops (s, l) ≡ some (s', l')
    → IsValid s'
unfolding run
run_from-IsValid os chips bmps [] s s' l l' v e = subst IsValid (cc) v
run_from-IsValid os chips bmps (op ∷ ops) s s' l l' v e =
    elim (Option-cases (step os chips bmps op (s, l))) [
      | inl h ↦ absurd (cc (rw (h, run) at e))
      | inr ((t, k), h) ↦
          run_from-IsValid os chips bmps ops t s' k l' (step-IsValid os chips bmps op s t l k v h)
            (rw (h, run) at e)
    ]

-- From the state that `pdm_ctor_mng_info` builds, every sequence of calls that does not fault leads
-- to a state with the invariant, whatever the callbacks answer: each slot knows its index, points
-- at an existing card type or at none, and has an interrupt handler only while it has a card; the
-- two callbacks of a card type are both set or both null.
pub run-IsValid :
    (os : Os) (chips bmps : List ℕ) (ops : List Op) (s : Slots) (l : Log)
    → run os chips bmps ops (ctor_mng_info, []) ≡ some (s, l)
    → IsValid s
run-IsValid os chips bmps ops s l e =
    run_from-IsValid os chips bmps ops ctor_mng_info s [] l ctor_mng_info-IsValid e
