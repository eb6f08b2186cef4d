-- ===== src/Daemon/Cards.antt =====
-- `CDynamicPrcMngInfo`: what a report of a card's type does.
use linux_drv.Prelude.{
  Bool, List, [], if◌then◌else◌, is_null, lez, ltb, ltz, negsuc, none, not, pos, some, suc, ℕ, ℤ,
  ◌+◌, ◌==◌, ◌||◌, ◌∷◌,
}
use linux_drv.Card.{etin_slot_self, etindev_max, etindev_null, index, is_card_n_null, is_slot_err}
use linux_drv.Daemon.Manager.{add_in2_start, del_from2_start, on_off}
use linux_drv.Daemon.Runtime.{term_prc}
use linux_drv.Daemon.State.{Card, Daemon, Run, Sys, dynamic_of, eqz, is_normal, ok, put_mng, ◌>>=◌}

abbrev pub online_filter_count : ℕ
online_filter_count = 3

abbrev pub put_card : ℕ → Card → Daemon → Daemon
put_card m c d = put_mng m (record (d.mngs m) { card = some c }) d

-- Step 2 of `handleNewType`: the card is gone.
unfoldable pub card_gone : Sys → ℕ → Card → Daemon → Run Daemon
card_gone sys m c d =
    let c1 = record c { card_kind = etindev_null; card_kind_new = etindev_null } in
    let d1 = put_card m c1 d in
    elim (d.mngs m).child [
      | some i ↦ if is_normal (d1.rts i).state then term_prc sys i d1 else ok d1
      | none ↦ del_from2_start m d1 >>= λ d2. ok (on_off sys c.slot_no etindev_null d2).1
    ]

-- Step 4: the card is there for good.
unfoldable pub card_there : Sys → ℕ → Card → ℤ → Daemon → Run Daemon
card_there sys m c t d =
    let c1 = record c { cnt4_filter = c.cnt4_filter + 1 } in
    let d1 = put_card m c1 d in
    let c2 = record c1 { cnt4_filter = 0; card_kind = t; card_kind_new = etindev_null } in
    let d2 = (on_off sys c.slot_no t (put_card m c2 d)).1 in
    if ltb c1.cnt4_filter online_filter_count
    then ok d1
    else if not (is_null (d.mngs m).child)
    then ok d1
    else add_in2_start m d2

-- `handleNewType` of the manager `m`; a static manager has none.
unfoldable pub handle_new_type : Sys → ℕ → ℤ → Daemon → Run Daemon
handle_new_type sys m t d = elim (d.mngs m).card [
  | none ↦ ok d
  | some c ↦
      if eqz t c.card_kind
      then ok (put_card m (record c { card_kind_new = etindev_null }) d)
      else if is_card_n_null c.card_kind
      then card_gone sys m c d
      else if not (eqz t c.card_kind_new)
      then ok (put_card m (record c { card_kind_new = t; cnt4_filter = 0 }) d)
      else card_there sys m c t d
]

-- `dont_care_slot`
abbrev pub dont_care_slot : ℕ → Bool
dont_care_slot i = not (i == etin_slot_self)

-- IS_CARD_TYPE_INVALID
abbrev pub is_card_type_invalid : ℤ → Bool
is_card_type_invalid t = ltz t etindev_null || lez (pos etindev_max) t

-- The loop of `sCheckDevChange` over the slots from `i` on, with the types that the driver reports.
unfoldable pub check_each : Sys → ℕ → List ℤ → Daemon → Run Daemon
check_each sys i [] d = ok d
check_each sys i (t ∷ ts) d = do
  d1 ←
      if dont_care_slot i || is_card_type_invalid t
      then ok d
      else handle_new_type sys (dynamic_of i) t d
  check_each sys (suc i) ts d1

-- `sHandleCardChange`
unfoldable pub handle_card_change : Sys → ℤ → ℤ → Daemon → Run (ℤ × Daemon)
handle_card_change sys slot_id t d =
    let handled : Run (ℤ × Daemon) =
      (handle_new_type sys (dynamic_of (index slot_id)) t d >>= λ d1. ok (pos 0, d1)) in
    if is_slot_err slot_id || is_card_type_invalid t
    then ok (negsuc 0, d)
    else if dont_care_slot (index slot_id)
    then ok (pos 0, d)
    else handled
