-- ===== src/Frame/Closing.antt =====
-- Closing the file of a card.
use mathlib.Core.Path.{subst}
use linux_drv.Prelude.{
  [], ap, arith, false, get_or-set_self, inl, inr, is_neg, length, none, pos, refl, set, set-set,
  some, sym, ℕ, ◌-◌, ◌<◌, ◌∙◌, ◌∷◌, ◌≡◌,
}
use linux_drv.Card.{is_slot_err}
use linux_drv.Frame.File.{Opened, release_dev, udf_open, udf_release}
use linux_drv.Frame.Halves.{th_release}
use linux_drv.Frame.Memory.{live, live-int_reg_op, live-th_release}
use linux_drv.Frame.State.{Top, Udf, UdfDrv, dev_at}
use linux_drv.Kernel.{Log, Os, held, held-unlock, lock, udf}
use linux_drv.Pdm.Slots.Effects.{free_irq-ok, quiet, slot_at-put_slot}
use linux_drv.Pdm.Slots.Inv.{IsValid, index-lt}
use linux_drv.Pdm.Slots.Irq.{disable_int_reg}
use linux_drv.Pdm.Slots.Mutual.{int_reg_op-held}
use linux_drv.Pdm.Slots.State.{put_slot, slot_at}
use linux_drv.Frame.Opening.{IsOpen, OpensOrNot, same_dev, th_release-held, udf_open_lem}

-- What closing leaves: the slot without a handler, with its interrupt off, and the device closed.
abbrev pub IsClosed : ℕ → UdfDrv → Udf → Udf → Type 0
IsClosed i d u u' =
    (u'.dev_set ≡ set u.dev_set i (some (record d { m_data = none })))
    × (u'.pdm ≡ put_slot u.pdm i (quiet (slot_at u.pdm i)))

release_dev_lem :
    (os : Os) (i : ℕ) (d : UdfDrv) (t : Top) (u : Udf) (l : Log)
    → d.m_data ≡ some t
    → IsValid u.pdm
    → is_slot_err (pos i) ≡ false
    → held l ≡ some []
    → let (r, has_private, u', l') = release_dev i d u l in
      (r ≡ pos 0)
      × (has_private ≡ false)
      × (held l' ≡ some [])
      × (live os l' ≡ live os l - 2)
      × IsClosed i d u u'
unfolding release_dev
release_dev_lem os i d t u l used v good h =
    let l1 = disable_int_reg i (lock (udf i) ∷ l) in
    let quiet_held : held l1 ≡ some (udf i ∷ []) =
      int_reg_op-held 1 i (lock (udf i) ∷ l) refl (rw h) in
    let kept : live os l1 ≡ live os l = live-int_reg_op os 1 i (lock (udf i) ∷ l) in
    rw (used, release_dev, free_irq-ok (pos i) (lock (udf i) ∷ l) v good)
      (
        refl,
        refl,
        held-unlock (udf i) (th_release t l1) (th_release-held t l1 quiet_held),
        live-th_release os t l1 ∙ omega (arith, kept),
        (refl, refl),
      )

closed_again :
    (os : Os) (isr i : ℕ) (d : UdfDrv) (u u1 : Udf) (l1 : Log)
    → dev_at u i ≡ some d
    → is_neg d.m_device ≡ false
    → i < length u.dev_set
    → IsValid u.pdm
    → d.m_data ≡ none
    → held l1 ≡ some []
    → IsOpen isr i d u u1
    → (o : Opened) × (udf_release i u1 l1 ≡ some o)
      × (o.0 ≡ pos 0)
      × (o.1 ≡ false)
      × (o.2.dev_set ≡ u.dev_set)
      × (o.2.pdm ≡ put_slot u.pdm i (quiet (slot_at u.pdm i)))
      × (live os o.3 ≡ live os l1 - 2)
      × (held o.3 ≡ some [])
unfolding udf_release
closed_again os isr i d u u1 l1 at_i ok lt v free h (t, devs, pdm, good, valid) =
    let d1 = record d { m_data = some t } in
    let w = record (slot_at u.pdm i) { isr_arg = i; isr_cb = some isr } in
    let here : dev_at u1 i ≡ some d1 = rw devs (get_or-set_self u.dev_set i (some d1) none lt) in
    let (z, p, k, m, (ds, ss)) = release_dev_lem os i d1 t u1 l1 refl (valid v) good h in
    let at_slot : slot_at u1.pdm i ≡ w = rw pdm (slot_at-put_slot i w v (index-lt (pos i) good)) in
    (
      release_dev i d1 u1 l1,
      rw (here, ok) refl,
      z,
      p,
      ds
          ∙ ap (λ xs. set xs i (some (record d { m_data = none }))) devs
          ∙ set-set u.dev_set i (some d1) (some (record d { m_data = none }))
          ∙ ap (λ (x : Udf). x.dev_set) (same_dev u i d at_i free),
      ss
          ∙ rw (at_slot, pdm)
              (ap (λ xs. record u.pdm { slots = xs }) (set-set u.pdm.slots i w (quiet w))),
      m,
      k,
    )

-- A file of a valid state that was opened without an error and is closed again: closing answers
-- 0, the devices are as before, the slot has no handler and its interrupt is off, all memory
-- that opening took is freed, and no lock is held.
pub udf_release-udf_open :
    (os : Os) (isr i : ℕ) (d : UdfDrv) (u : Udf) (l : Log) (o : Opened)
    → dev_at u i ≡ some d
    → is_neg d.m_device ≡ false
    → i < length u.dev_set
    → IsValid u.pdm
    → held l ≡ some []
    → udf_open os isr i false u l ≡ some o
    → is_neg o.0 ≡ false
    → (c : Opened) × (udf_release i o.2 o.3 ≡ some c)
      × (c.0 ≡ pos 0)
      × (c.1 ≡ false)
      × (c.2.dev_set ≡ u.dev_set)
      × (c.2.pdm ≡ put_slot u.pdm i (quiet (slot_at u.pdm i)))
      × (live os c.3 ≡ live os l)
      × (held c.3 ≡ some [])
udf_release-udf_open os isr i d u l o at_i ok lt v h opens fine =
    let (o1, e, out1) = udf_open_lem os isr i d u l at_i ok h in
    let same : o1 ≡ o = cc (sym e ∙ opens) in
    let (k, outcome) = subst (OpensOrNot os isr i d u l) same out1 in
    elim outcome [
      | inl (bad, _, _, _) ↦ absurd (ground (arith, bad, fine))
      | inr (_, _, free, m, is_open) ↦
          let (c, ce, z, p, ds, ss, live_c, held_c) =
            closed_again os isr i d u o.2 o.3 at_i ok lt v free k is_open in
          (c, ce, z, p, ds, ss, live_c ∙ omega (arith, m), held_c)
    ]
