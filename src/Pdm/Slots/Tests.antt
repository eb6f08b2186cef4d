-- ===== src/Pdm/Slots/Tests.antt =====
-- Tests and examples of pdm_drv_ext.c's model.
use linux_drv.Prelude.{
  Bool, List, [], arith, if◌then◌else◌, none, pos, refl, some, true, ℕ, ◌==◌, ◌↔◌, ◌∷◌, ◌≡◌,
}
use linux_drv.Card.{etindev_mio}
use linux_drv.Kernel.{Log, Os, eio, int_mask, isr, offline, online}
use linux_drv.Pdm.Slots.Balance.{IsFree, Releases, step-held}
use linux_drv.Pdm.Slots.Callbacks.{cbs}
use linux_drv.Pdm.Slots.Cards.{
  card_offline, card_online, offline_call, offline_card, online_call, online_empty,
}
use linux_drv.Pdm.Slots.Interrupts.{mask_of, slot_int_handler_lem}
use linux_drv.Pdm.Slots.Inv.{IsValid, ctor_mng_info-IsValid}
use linux_drv.Pdm.Slots.Irq.{disable_int, enable_int, free_irq, request_irq}
use linux_drv.Pdm.Slots.Isr.{handle_each, handle_slot_int, run_isr, slot_int_handler, take_int}
use linux_drv.Pdm.Slots.Lifecycle.{card_offline-card_online, card_online_lem, occupied}
use linux_drv.Pdm.Slots.Masked.{After, IsMasked}
use linux_drv.Pdm.Slots.MaskedOps.{step-IsMasked}
use linux_drv.Pdm.Slots.Reach.{
  Op, go_offline, go_online, interrupt, register, request, run, run-IsValid, step, unmask, work,
}
use linux_drv.Pdm.Slots.Registration.{reg_lem, registered, unreg-fault, unreg-reg}
use linux_drv.Pdm.Slots.Registry.{
  reg_checked, reg_each, reg_online_offline_cb, reg_visit, unreg_online_offline_cb,
}
use linux_drv.Pdm.Slots.State.{
  DrvVsnInfo, Slots, ctor_mng_info, fresh_slot, null_type, null_vsn, put_slot,
}

-- Every call of the kernel or of a callback answers 1.
abbrev one : Os
one l c = pos 1

-- Callback 7 fails with -EIO; every other call answers 0.
abbrev failing : Os
failing l (online cb i base) = if cb == 7 then eio else pos 0
failing l _ = pos 0

abbrev chips : List ℕ
chips = 0 ∷ 64 ∷ []

abbrev vsn : DrvVsnInfo
vsn = record { src_vsn = some 3; udf_vsn = none }

abbrev start : Slots
start = ctor_mng_info

-- MIO is registered with the callbacks 7 and 8, and a card of it sits in the slot SELF.
abbrev plugged : Slots
plugged = record start {
  types = null_type ∷ record { cb_online = some 7; cb_offline = some 8 } ∷ [];
  slots =
      fresh_slot 0
      ∷ record (fresh_slot 1) { type_info = some 1; isr_cb = some 5; int_enabled = true }
      ∷ [];
}

-- A card of an unregistered type.
abbrev orphan : Slots
orphan = put_slot start 1 (occupied 1 (fresh_slot 1))

plugged-IsValid : IsValid plugged
plugged-IsValid = ground arith

orphan-IsValid : IsValid orphan
orphan-IsValid = ground arith

no_locks-IsFree : IsFree []
no_locks-IsFree = record { type_free = refl; reg_free = refl; slot_free = λ i. refl }

abbrev script : List Op
script =
    register etindev_mio (some 7) (some 8) vsn
    ∷ go_online (pos 1) etindev_mio
    ∷ request (pos 1) (some 5) 9
    ∷ unmask (pos 1)
    ∷ interrupt 4
    ∷ work 1
    ∷ go_offline (pos 1)
    ∷ []

abbrev after_script : Slots
after_script = record start {
  types = null_type ∷ record { cb_online = some 7; cb_offline = some 8 } ∷ [];
  vsns = null_vsn ∷ vsn ∷ [];
  slots = fresh_slot 0 ∷ record (fresh_slot 1) { work_idx = true } ∷ [];
}

abbrev script_log : Log
script_log = elim (run one chips (0 ∷ 4 ∷ []) script (start, [])) [ none ↦ [] | some (s, l) ↦ l ]

run-script : run one chips (0 ∷ 4 ∷ []) script (start, []) ≡ some (after_script, script_log)
unfolding run step reg_online_offline_cb reg_checked reg_each reg_visit card_online online_empty
    online_call request_irq enable_int handle_slot_int handle_each take_int slot_int_handler run_isr
    card_offline offline_card disable_int free_irq offline_call
run-script = refl

run-IsValid_example : IsValid after_script
run-IsValid_example = run-IsValid one chips (0 ∷ 4 ∷ []) script after_script script_log run-script

step-held_example : Releases [] (step one chips [] (go_offline (pos 1)) (plugged, []))
step-held_example = step-held no_locks-IsFree one chips [] (go_offline (pos 1)) plugged [] refl

step-IsMasked_example :
    After (IsMasked 1) (step one chips (0 ∷ 4 ∷ []) (interrupt 4) (start, int_mask 1 1 ∷ []))
step-IsMasked_example =
    step-IsMasked 1 (omega arith) one chips (0 ∷ 4 ∷ []) (interrupt 4) start (int_mask 1 1 ∷ [])
      ctor_mng_info-IsValid tt refl (record { off = refl; masked = refl })

-- MIO is registered with the callbacks 7 and 8, and no card is in.
abbrev registered_mio : Slots
registered_mio = record start {
  types = null_type ∷ record { cb_online = some 7; cb_offline = some 8 } ∷ [];
}

-- The callback fails.
card_online_lem_example :
    let (r, s', l') = card_online failing chips (pos 1) etindev_mio registered_mio [] in
    (r ≡ eio) × (s' ≡ registered_mio) × (cbs l' ≡ online 7 1 64 ∷ [])
card_online_lem_example =
    card_online_lem failing chips (pos 1) etindev_mio registered_mio [] refl refl

card_offline-card_online_example :
    let (r, s1, l1) = card_online one chips (pos 1) etindev_mio start [] in
    let (s2, l2) = card_offline (pos 1) s1 l1 in (s2 ≡ start) × (cbs l2 ≡ [])
unfolding card_online online_empty online_call
card_offline-card_online_example =
    card_offline-card_online one chips (pos 1) etindev_mio start [] ctor_mng_info-IsValid refl refl
      refl

unreg-fault_example :
    (unreg_online_offline_cb etindev_mio orphan [] ≡ none) ↔ (◌≡◌ {A = Bool} true true)
unreg-fault_example = unreg-fault etindev_mio orphan [] refl

reg_lem_example :
    let (_, s', l') =
      reg_online_offline_cb failing chips etindev_mio (some 7) (some 8) vsn orphan [] in
    (s' ≡ registered 1 7 8 vsn orphan) × (cbs l' ≡ online 7 1 64 ∷ [])
reg_lem_example = reg_lem failing chips etindev_mio 7 8 vsn orphan [] refl refl

-- The registration is saved although the answer is -EIO.
reg_fails_saved :
    (reg_online_offline_cb failing chips etindev_mio (some 7) (some 8) vsn orphan []).0 ≡ eio
unfolding reg_online_offline_cb reg_checked reg_each reg_visit
reg_fails_saved = refl

unreg-reg_example :
    let (_, s1, l1) = reg_online_offline_cb one chips etindev_mio (some 7) (some 8) vsn orphan [] in
    (k : Log) × (unreg_online_offline_cb etindev_mio s1 l1 ≡ some (orphan, k))
    × (cbs k ≡ offline 8 1 ∷ online 7 1 64 ∷ [])
unreg-reg_example = unreg-reg one chips etindev_mio 7 8 vsn orphan [] orphan-IsValid refl refl

slot_int_handler_lem_example :
    let k = slot_int_handler one 1 plugged [] in (cbs k ≡ isr 5 0 ∷ []) × (mask_of 1 k ≡ some 0)
slot_int_handler_lem_example = slot_int_handler_lem one 1 plugged [] plugged-IsValid (omega arith)
