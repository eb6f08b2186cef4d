-- ===== src/Pdm/Slots/MaskedOps.antt =====
-- Which operations of pdm_drv_ext.c keep a disabled slot masked: all but enabling it.
use linux_drv.Prelude.{
  Bool-cases, List, Option, Option-cases, ap, arith, false, get_or, inl, inr, is_neg, is_null, none,
  not, pos, refl, some, sym, true, ℕ, ℤ, ◌&&◌, ◌<◌, ◌==◌, ◌||◌, ◌∙◌, ◌∷◌, ◌≡◌, ◌≢◌,
}
use linux_drv.Card.{etin_slot_max, index, is_card_type_err, is_slot_err}
use linux_drv.Kernel.{Log, Os, card_type, lock, slot, unlock}
use linux_drv.Pdm.Slots.Cards.{card_offline, card_online, offline_call, online_call, online_empty}
use linux_drv.Pdm.Slots.Effects.{free_irq-ok, offline_card-ok, quiet, vacant}
use linux_drv.Pdm.Slots.Interrupts.{handle_each_lem, mask_of, mask_of-int_reg_op}
use linux_drv.Pdm.Slots.Inv.{IsValid, slot_at-IsSlot}
use linux_drv.Pdm.Slots.Irq.{
  disable_int, disable_int_reg, enable_int, enable_int_reg, free_irq, request_irq,
}
use linux_drv.Pdm.Slots.Isr.{handle_slot_int, slot_int_handler}
use linux_drv.Pdm.Slots.Lifecycle.{occupied}
use linux_drv.Pdm.Slots.Masked.{
  After, IsMasked, enabled-switched, mask_of-reg_each, mask_of-run_isr, mask_of-unreg_each,
  masked-handle_each, put_slot-off, unmasks,
}
use linux_drv.Pdm.Slots.Reach.{
  Op, go_offline, go_online, interrupt, mask, register, release, request, step, unmask, unregister,
  work,
}
use linux_drv.Pdm.Slots.Registry.{
  is_registered, reg_checked, reg_online_offline_cb, unreg_checked, unreg_each,
  unreg_online_offline_cb,
}
use linux_drv.Pdm.Slots.State.{DrvVsnInfo, SlotInfo, Slots, fresh_slot, put_slot, slot_at, type_at}

mask_of-online_call :
    (n : ℕ) (os : Os) (i base : ℕ) (cb : Option ℕ) (l : Log)
    → mask_of n (online_call os i base cb l).1 ≡ mask_of n l
unfolding online_call
mask_of-online_call n os i base none l = refl
mask_of-online_call n os i base (some cb) l = refl

mask_of-offline_call :
    (n : ℕ) (cb : Option ℕ) (i : ℕ) (l : Log) → mask_of n (offline_call cb i l) ≡ mask_of n l
unfolding offline_call
mask_of-offline_call n none i l = refl
mask_of-offline_call n (some cb) i l = refl

-- A work item that runs belongs to a slot.
abbrev pub IsWork : Op → Type 0
IsWork (work j) = j < etin_slot_max
IsWork _ = Unit

module _ (i : ℕ) (below : i < etin_slot_max) where
  -- An operation on the entry `j` that does not turn its interrupt on.
  put_slot-IsMasked :
      {s : Slots} (l k : Log) (j : ℕ) (w : SlotInfo)
      → IsValid s
      → IsMasked i s l
      → (j ≡ i → w.int_enabled ≡ false)
      → (mask_of i l ≡ some 1 → mask_of i k ≡ some 1)
      → IsMasked i (put_slot s j w) k
  put_slot-IsMasked l k j w v m same keep = record {
    off = put_slot-off i j w v below same m.off;
    masked = keep m.masked;
  }

  disabled : (l : Log) (j : ℕ) → mask_of i l ≡ some 1 → mask_of i (disable_int_reg j l) ≡ some 1
  disabled l j h = ground (arith, mask_of-int_reg_op i 1 j l)

  same_flag :
      (s : Slots) (l : Log) (j : ℕ) → IsMasked i s l → j ≡ i → (slot_at s j).int_enabled ≡ false
  same_flag s l j m e = rw e m.off

  request_irq-IsMasked :
      (x : ℤ) (g : Option ℕ) (arg : ℕ) (s : Slots) (l : Log)
      → IsValid s
      → IsMasked i s l
      → IsMasked i (request_irq x g arg s l).1 (request_irq x g arg s l).2
  unfolding request_irq
  request_irq-IsMasked x none arg s l v m = m
  request_irq-IsMasked x (some g) arg s l v m =
      let j = index x in
      let w = record (slot_at s j) { isr_arg = arg; isr_cb = some g } in
      elim (Bool-cases (is_slot_err x)) [
        | inl bad ↦ rw bad m
        | inr good ↦ elim (Bool-cases (is_null (slot_at s j).type_info)) [
          | inl empty ↦ rw (good, empty) m
          | inr card ↦ elim (Bool-cases (not (is_null (slot_at s j).isr_cb))) [
            | inl taken ↦ rw (good, card, taken) m
            | inr idle ↦
                rw (good, card, idle) (put_slot-IsMasked l l j w v m (same_flag s l j m) (λ h. h))
          ]
        ]
      ]

  free_irq-IsMasked :
      (x : ℤ) (s : Slots) (l : Log)
      → IsValid s
      → IsMasked i s l
      → IsMasked i (free_irq x s l).0 (free_irq x s l).1
  unfolding free_irq
  free_irq-IsMasked x s l v m = elim (Bool-cases (is_slot_err x)) [
    | inl bad ↦ rw bad m
    | inr good ↦ rw (free_irq-ok x l v good) (
        put_slot-IsMasked l (disable_int_reg (index x) l) (index x) (quiet (slot_at s (index x))) v
          m (λ _. refl) (disabled l (index x)))
  ]

  disable_int-IsMasked :
      (x : ℤ) (s : Slots) (l : Log)
      → IsValid s
      → IsMasked i s l
      → IsMasked i (disable_int x s l).1 (disable_int x s l).2
  unfolding disable_int
  disable_int-IsMasked x s l v m = elim (Bool-cases (is_slot_err x)) [
    | inl bad ↦ rw bad m
    | inr good ↦
        let j = index x in
        rw good (
          put_slot-IsMasked l (disable_int_reg j l) j (record (slot_at s j) { int_enabled = false })
            v m (λ _. refl) (disabled l j))
  ]

  enable_int-IsMasked :
      (x : ℤ) (s : Slots) (l : Log)
      → IsValid s
      → not (is_slot_err x) && index x == i ≡ false
      → IsMasked i s l
      → IsMasked i (enable_int x s l).1 (enable_int x s l).2
  unfolding enable_int
  enable_int-IsMasked x s l v other m = elim (Bool-cases (is_slot_err x)) [
    | inl bad ↦ rw bad m
    | inr good ↦
        let j = index x in
        let ne : j ≢ i = ground (arith, rw good at other) in
        rw good (
          put_slot-IsMasked l (enable_int_reg j l) j (record (slot_at s j) { int_enabled = true }) v
            m (λ e. absurd (ne e)) (λ h. ground (arith, mask_of-int_reg_op i 0 j l)))
  ]

  card_online-IsMasked :
      (os : Os) (chips : List ℕ) (x ct : ℤ) (s : Slots) (l : Log)
      → IsValid s
      → IsMasked i s l
      → IsMasked i (card_online os chips x ct s l).1 (card_online os chips x ct s l).2
  unfolding card_online online_empty
  card_online-IsMasked os chips x ct s l v m =
      let j = index x in
      let w = occupied (index ct) (slot_at s j) in
      let l1 = lock (slot j) ∷ lock card_type ∷ l in
      let (r, l2) = online_call os j (get_or chips j 0) (type_at s (index ct)).cb_online l1 in
      let kept =
        mask_of-online_call i os j (get_or chips j 0) (type_at s (index ct)).cb_online l1 in
      let k = unlock card_type ∷ unlock (slot j) ∷ l2 in
      elim (Bool-cases (is_slot_err x || is_card_type_err ct)) [
        | inl bad ↦ rw bad m
        | inr good ↦ elim (Bool-cases (not (is_null (slot_at s j).type_info))) [
          | inl full ↦ rw (good, full) (record { off = m.off; masked = m.masked })
          | inr empty ↦ elim (Bool-cases (is_neg r)) [
            | inl fails ↦ rw (good, empty, fails) (record { off = m.off; masked = kept ∙ m.masked })
            | inr fine ↦
                rw (good, empty, fine)
                  (put_slot-IsMasked l k j w v m (same_flag s l j m) (λ h. kept ∙ h))
          ]
        ]
      ]

  card_offline-IsMasked :
      (x : ℤ) (s : Slots) (l : Log)
      → IsValid s
      → IsMasked i s l
      → IsMasked i (card_offline x s l).0 (card_offline x s l).1
  unfolding card_offline
  card_offline-IsMasked x s l v m =
      let j = index x in
      let l1 = lock (slot j) ∷ lock card_type ∷ l in
      let l2 = disable_int_reg j (disable_int_reg j l1) in
      elim (Bool-cases (is_slot_err x)) [
        | inl bad ↦ rw bad m
        | inr good ↦ elim (Option-cases (slot_at s j).type_info) [
          | inl e ↦ rw (good, e) (record { off = m.off; masked = m.masked })
          | inr (t, e) ↦
              rw (good, e, offline_card-ok x t l1 v good)
                (put_slot-IsMasked l
                  (unlock card_type ∷ unlock (slot j) ∷ offline_call (type_at s t).cb_offline j l2)
                  j (vacant (slot_at s j)) v m (λ _. refl)
                  (λ h.
                    mask_of-offline_call i (type_at s t).cb_offline j l2
                    ∙ disabled (disable_int_reg j l1) j (disabled l1 j h)))
        ]
      ]

  reg-IsMasked :
      (os : Os) (chips : List ℕ) (ct : ℤ) (on cb : Option ℕ) (d : DrvVsnInfo) (s : Slots) (l : Log)
      → IsMasked i s l
      → let (_, s', l') = reg_online_offline_cb os chips ct on cb d s l in IsMasked i s' l'
  unfolding reg_online_offline_cb reg_checked
  reg-IsMasked os chips ct none cb d s l m = m
  reg-IsMasked os chips ct (some on) none d s l m = m
  reg-IsMasked os chips ct (some on) (some cb) d s l m = elim (Bool-cases (is_card_type_err ct)) [
    | inl bad ↦ rw bad m
    | inr good ↦ elim (Bool-cases (is_registered (type_at s (index ct)))) [
      | inl old ↦ rw (good, old) (record { off = m.off; masked = m.masked })
      | inr new ↦
          rw (good, new)
            (record {
              off = m.off;
              masked =
                  mask_of-reg_each os i chips (index ct) on 0 s.slots (pos 0) (lock card_type ∷ l)
                  ∙ m.masked;
            })
    ]
  ]

  unreg-IsMasked :
      (ct : ℤ) (s : Slots) (l : Log)
      → IsMasked i s l
      → After (IsMasked i) (unreg_online_offline_cb ct s l)
  unfolding unreg_online_offline_cb unreg_checked
  unreg-IsMasked ct s l m =
      let t = index ct in
      let cb = (type_at s t).cb_offline in
      elim (Bool-cases (is_card_type_err ct)) [
        | inl bad ↦ rw bad m
        | inr good ↦ elim (Option-cases (unreg_each t cb 0 s.slots (lock card_type ∷ l))) [
          | inl fault ↦ rw (good, fault, unreg_checked) tt
          | inr (k, fine) ↦
              rw (good, fine, unreg_checked)
                (record {
                  off = m.off;
                  masked =
                      mask_of-unreg_each i t cb 0 s.slots (lock card_type ∷ l) k fine ∙ m.masked;
                })
        ]
      ]

  handle_slot_int-IsMasked :
      (r : ℕ) (bmps : List ℕ) (s : Slots) (l : Log)
      → IsMasked i s l
      → IsMasked i (handle_slot_int r bmps s l).1 (handle_slot_int r bmps s l).2
  unfolding handle_slot_int
  handle_slot_int-IsMasked r bmps s l m = record {
    off =
        ap (λ ws. (get_or ws i (fresh_slot i)).int_enabled) (handle_each_lem r bmps 0 s.slots 0 l).1
        ∙ enabled-switched r bmps 0 i s.slots (fresh_slot i)
        ∙ m.off;
    masked = masked-handle_each i r bmps 0 s.slots 0 l m.masked;
  }

  slot_int_handler-IsMasked :
      (os : Os) (j : ℕ) (s : Slots) (l : Log)
      → IsValid s
      → j < etin_slot_max
      → IsMasked i s l
      → IsMasked i s (slot_int_handler os j s l)
  unfolding slot_int_handler
  slot_int_handler-IsMasked os j s l v lt m = record {
    off = m.off;
    masked =
        mask_of-run_isr os i (slot_at s j) (lock (slot j) ∷ l)
          (λ e. same_flag s l j m (sym (slot_at-IsSlot j v lt).knows_index ∙ e))
        ∙ m.masked;
  }

  -- A slot whose interrupt was disabled stays masked, and its handler stays off, under every call of
  -- the module that does not fault, but for one that enables this slot's interrupt: cards that come
  -- and go, handlers that come and go, registrations, interrupts and the work of any slot.
  pub step-IsMasked :
      (os : Os) (chips bmps : List ℕ) (op : Op) (s : Slots) (l : Log)
      → IsValid s
      → IsWork op
      → unmasks i op ≡ false
      → IsMasked i s l
      → After (IsMasked i) (step os chips bmps op (s, l))
  unfolding step
  step-IsMasked os chips bmps (register ct on cb d) s l v w u m =
      reg-IsMasked os chips ct on cb d s l m
  step-IsMasked os chips bmps (unregister ct) s l v w u m = unreg-IsMasked ct s l m
  step-IsMasked os chips bmps (go_online x ct) s l v w u m =
      card_online-IsMasked os chips x ct s l v m
  step-IsMasked os chips bmps (go_offline x) s l v w u m = card_offline-IsMasked x s l v m
  step-IsMasked os chips bmps (request x g arg) s l v w u m = request_irq-IsMasked x g arg s l v m
  step-IsMasked os chips bmps (release x) s l v w u m = free_irq-IsMasked x s l v m
  step-IsMasked os chips bmps (unmask x) s l v w u m = enable_int-IsMasked x s l v u m
  step-IsMasked os chips bmps (mask x) s l v w u m = disable_int-IsMasked x s l v m
  step-IsMasked os chips bmps (interrupt r) s l v w u m = handle_slot_int-IsMasked r bmps s l m
  step-IsMasked os chips bmps (work j) s l v w u m = slot_int_handler-IsMasked os j s l v w m
