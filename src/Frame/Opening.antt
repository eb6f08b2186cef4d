-- ===== src/Frame/Opening.antt =====
-- Opening the file of a card.
use linux_drv.Prelude.{
  Bool-cases, List, Option, Option-cases, [], ap, arith, false, get_or, inl, inr, is_neg, none, pos,
  refl, set, set-get_or, some, sym, true, ℕ, ◌+◌, ◌∙◌, ◌∷◌, ◌≡◌, ◌⊎◌,
}
use linux_drv.Card.{is_slot_err}
use linux_drv.Frame.File.{Opened, open_dev, open_requested, put_data, udf_open}
use linux_drv.Frame.Halves.{bh_open, bh_release, th_open, th_opened, th_release}
use linux_drv.Frame.Memory.{Holding, live, live-th_release, th_open-Holding}
use linux_drv.Frame.State.{Top, Udf, UdfDrv, dev_at}
use linux_drv.Kernel.{Log, Mutex, Os, eexist, held, held-unlock, lock, udf, unlock}
use linux_drv.Pdm.Slots.Inv.{IsValid, request_irq-IsValid}
use linux_drv.Pdm.Slots.Irq.{request_irq}
use linux_drv.Pdm.Slots.State.{Slots, put_slot, slot_at}

th_open-held :
    (os : Os) (u : Udf) (i : ℕ) (l : Log) {ms : List Mutex}
    → held l ≡ some ms
    → held (th_open os u i l).1 ≡ some ms
unfolding th_open th_opened bh_open bh_release
th_open-held os u i l h = ground arith

pub th_release-held :
    (t : Top) (l : Log) {ms : List Mutex} → held l ≡ some ms → held (th_release t l) ≡ some ms
unfolding th_release bh_release
th_release-held t l h = ground arith

-- `pdm_request_irq` changes nothing where it refuses.
request_irq_lem :
    (i f arg : ℕ) (s : Slots) (l : Log)
    → let (r, s', l') = request_irq (pos i) (some f) arg s l in
      (l' ≡ l)
      × (is_neg r ≡ true → s' ≡ s)
      × (is_neg r ≡ false
          → (is_slot_err (pos i) ≡ false)
            × (r ≡ pos 0)
            × (IsValid s → IsValid s')
            × (s' ≡ put_slot s i (record (slot_at s i) { isr_arg = arg; isr_cb = some f })))
unfolding request_irq
request_irq_lem i f arg s l =
    ground (arith, λ (v : IsValid s). request_irq-IsValid (pos i) (some f) arg l v)

-- Without its top half a closed device is as it was.
pub same_dev :
    (u : Udf) (i : ℕ) (d : UdfDrv) → dev_at u i ≡ some d → d.m_data ≡ none → put_data i d none u ≡ u
same_dev u i d at_i free =
    let here : some (record d { m_data = none }) ≡ get_or u.dev_set i none =
      ap (λ (t : Option Top). some (record d { m_data = t })) (sym free) ∙ sym at_i in
    ap (λ xs. record u { dev_set = xs }) (ap (set u.dev_set i) here ∙ set-get_or u.dev_set i none)

-- What an open file is: its private data, the top half and the handler of the slot.
abbrev pub IsOpen : ℕ → ℕ → UdfDrv → Udf → Udf → Type 0
IsOpen isr i d u u' =
    (t : Top) × (u'.dev_set ≡ set u.dev_set i (some (record d { m_data = some t })))
    × (u'.pdm ≡ put_slot u.pdm i (record (slot_at u.pdm i) { isr_arg = i; isr_cb = some isr }))
    × (is_slot_err (pos i) ≡ false)
    × (IsValid u.pdm → IsValid u'.pdm)

-- The outcome of opening: all or nothing.
abbrev pub OpensOrNot : Os → ℕ → ℕ → UdfDrv → Udf → Log → Opened → Type 0
OpensOrNot os isr i d u l (r, has_private, u', l') =
    (held l' ≡ some [])
    × (((is_neg r ≡ true) × (has_private ≡ false) × (u' ≡ u) × (live os l' ≡ live os l))
        ⊎ ((r ≡ pos 0)
            × (has_private ≡ true)
            × (d.m_data ≡ none)
            × (live os l' ≡ live os l + 2)
            × IsOpen isr i d u u'))

open_requested_lem :
    (os : Os) (isr i : ℕ) (d : UdfDrv) (u : Udf) (l : Log) (p : Option Top × Log)
    → dev_at u i ≡ some d
    → d.m_data ≡ none
    → held p.1 ≡ some (udf i ∷ [])
    → Holding os i l p
    → OpensOrNot os isr i d u l (open_requested isr i d u p)
unfolding open_requested
open_requested_lem os isr i d u l (none, l1) at_i free h g =
    (held-unlock (udf i) l1 h, inl (refl, refl, refl, g))
open_requested_lem os isr i d u l (some t, l1) at_i free h (more, _, _) =
    let (same_log, refused, taken) = request_irq_lem i isr i u.pdm l1 in
    let (r, s, l') = request_irq (pos i) (some isr) i u.pdm l1 in
    elim (Bool-cases (is_neg r)) [
      | inl e ↦
          rw (e, same_log)
            (
              held-unlock (udf i) (th_release t l1) (th_release-held t l1 h),
              inl (
                e,
                refl,
                ap (λ s. put_data i d none (record u { pdm = s })) (refused e)
                    ∙ same_dev u i d at_i free,
                live-th_release os t l1 ∙ omega (arith, more),
              ),
            )
      | inr e ↦
          let (good, zero_ret, valid, stored) = taken e in
          rw (e, same_log)
            (held-unlock (udf i) l1 h, inr (refl, refl, free, more, (t, refl, stored, good, valid)))
    ]

-- Opening a file that has no private data, of a device that device_create made, while no lock is
-- held, is all or nothing: either it answers an error, nothing has changed and no memory is
-- kept; or it answers 0, the device had no top half and has one now, the slot's handler is that
-- of the file, and two objects are kept. No lock is held afterwards.
pub udf_open_lem :
    (os : Os) (isr i : ℕ) (d : UdfDrv) (u : Udf) (l : Log)
    → dev_at u i ≡ some d
    → is_neg d.m_device ≡ false
    → held l ≡ some []
    → (o : Opened) × (udf_open os isr i false u l ≡ some o) × OpensOrNot os isr i d u l o
unfolding udf_open open_dev
udf_open_lem os isr i d u l at_i ok h =
    let locked : held (lock (udf i) ∷ l) ≡ some (udf i ∷ []) = rw h in
    let p = th_open os u i (lock (udf i) ∷ l) in
    elim (Option-cases d.m_data) [
      | inl free ↦ (
        open_requested isr i d u p,
        rw (at_i, ok, free, udf_open) refl,
        open_requested_lem os isr i d u l p at_i free
            (th_open-held os u i (lock (udf i) ∷ l) locked)
            (th_open-Holding os u i (lock (udf i) ∷ l)),
      )
      | inr (t, used) ↦ (
        (eexist, false, u, unlock (udf i) ∷ lock (udf i) ∷ l),
        rw (at_i, ok, used, udf_open) refl,
        (held-unlock (udf i) (lock (udf i) ∷ l) locked, inl (refl, refl, refl, refl)),
      )
    ]
