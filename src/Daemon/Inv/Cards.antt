-- ===== src/Daemon/Inv/Cards.antt =====
-- Reports of card types keep the invariant.
use linux_drv.Prelude.{
  Bool-cases, List, Option-cases, [], arith, inl, inr, is_null, ltb, none, pos, refl, some, suc, ℕ,
  ℤ, ◌+◌, ◌||◌, ◌∷◌, ◌≡◌,
}
use linux_drv.Card.{etindev_null, index, is_card_n_null, is_slot_err}
use linux_drv.Daemon.Cards.{
  card_gone, card_there, check_each, dont_care_slot, handle_card_change, handle_new_type,
  is_card_type_invalid, online_filter_count, put_card,
}
use linux_drv.Daemon.Inv.Defs.{IsSound}
use linux_drv.Daemon.Inv.Managers.{Kept, calls-IsSound}
use linux_drv.Daemon.Inv.Moves.{keep-IsQueued, keep_mng-IsLinked}
use linux_drv.Daemon.Inv.Ops.{
  Holds, Holds-bind, IsSound-IsSoundBut, add_in2_start-IsSound, del_from2_start-IsSound,
  term_prc-IsSound,
}
use linux_drv.Daemon.Manager.{del_from2_start, on_off}
use linux_drv.Daemon.State.{Card, Daemon, Sys, dynamic_of, eqz, is_normal, ok, on_off_line}

put_card-IsSound : (m : ℕ) (c : Card) (d : Daemon) → IsSound d → IsSound (put_card m c d)
put_card-IsSound m c d h =
    let x = record (d.mngs m) { card = some c } in
    record {
      listed = h.listed;
      linked = keep_mng-IsLinked d.rts d.mngs m x refl h.linked;
      has_pid = h.has_pid;
      is_waiting = keep-IsQueued d.mngs d.to_start m x refl (h.is_waiting.idle m) h.is_waiting;
    }

on_off-IsSound : (sys : Sys) (s : ℕ) (t : ℤ) (d : Daemon) → IsSound d → IsSound (on_off sys s t d).1
unfolding on_off
on_off-IsSound sys s t d h = calls-IsSound d (on_off_line s t ∷ d.calls) h

on_off-child :
    (sys : Sys) (s : ℕ) (t : ℤ) (m : ℕ) (c : Card) (d : Daemon)
    → (d.mngs m).child ≡ none
    → ((on_off sys s t (put_card m c d)).1.mngs m).child ≡ none
unfolding on_off
on_off-child sys s t m c d e = ground (arith, e)

card_gone-IsSound :
    (sys : Sys) (m : ℕ) (c : Card) (d : Daemon) → IsSound d → Holds IsSound (card_gone sys m c d)
unfolding card_gone
card_gone-IsSound sys m c d h =
    let c1 = record c { card_kind = etindev_null; card_kind_new = etindev_null } in
    let d1 = put_card m c1 d in
    let h1 = put_card-IsSound m c1 d h in
    elim (Option-cases (d.mngs m).child) [
      | inl e ↦
          rw (e, card_gone)
            (Holds-bind IsSound IsSound (del_from2_start m d1)
              (λ d2. ok (on_off sys c.slot_no etindev_null d2).1)
              (del_from2_start-IsSound m d1 (IsSound-IsSoundBut m d1 h1))
              (λ d2 k. on_off-IsSound sys c.slot_no etindev_null d2 k))
      | inr (i, e) ↦ elim (Bool-cases (is_normal (d.rts i).state)) [
        | inl f ↦
            rw (e, f, card_gone)
              (term_prc-IsSound sys i d1 (ground (arith, h.linked.down m i e)) h1)
        | inr f ↦ rw (e, f, card_gone) h1
      ]
    ]

card_there-IsSound :
    (sys : Sys) (m : ℕ) (c : Card) (t : ℤ) (d : Daemon)
    → IsSound d
    → Holds IsSound (card_there sys m c t d)
unfolding card_there
card_there-IsSound sys m c t d h =
    let c1 = record c { cnt4_filter = c.cnt4_filter + 1 } in
    let c2 = record c1 { cnt4_filter = 0; card_kind = t; card_kind_new = etindev_null } in
    elim (Bool-cases (ltb c1.cnt4_filter online_filter_count)) [
      | inl e ↦ rw e (put_card-IsSound m c1 d h)
      | inr e ↦ elim (Bool-cases (is_null (d.mngs m).child)) [
        | inr f ↦ rw (e, f) (put_card-IsSound m c1 d h)
        | inl f ↦
            rw (e, f)
              (add_in2_start-IsSound m (on_off sys c.slot_no t (put_card m c2 d)).1
                (on_off-child sys c.slot_no t m c2 d (ground (arith, f)))
                (on_off-IsSound sys c.slot_no t (put_card m c2 d) (put_card-IsSound m c2 d h)))
      ]
    ]

pub handle_new_type-IsSound :
    (sys : Sys) (m : ℕ) (t : ℤ) (d : Daemon) → IsSound d → Holds IsSound (handle_new_type sys m t d)
unfolding handle_new_type
handle_new_type-IsSound sys m t d h = elim (Option-cases (d.mngs m).card) [
  | inl e ↦ rw (e, handle_new_type) h
  | inr (c, e) ↦ elim (Bool-cases (eqz t c.card_kind)) [
    | inl f ↦ rw (e, f, handle_new_type) (put_card-IsSound m _ d h)
    | inr f ↦ elim (Bool-cases (is_card_n_null c.card_kind)) [
      | inl g ↦ rw (e, f, g, handle_new_type) (card_gone-IsSound sys m c d h)
      | inr g ↦ elim (Bool-cases (eqz t c.card_kind_new)) [
        | inr k ↦ rw (e, f, g, k, handle_new_type) (put_card-IsSound m _ d h)
        | inl k ↦ rw (e, f, g, k, handle_new_type) (card_there-IsSound sys m c t d h)
      ]
    ]
  ]
]

pub check_each-IsSound :
    (sys : Sys) (i : ℕ) (ts : List ℤ) (d : Daemon)
    → IsSound d
    → Holds IsSound (check_each sys i ts d)
unfolding check_each
check_each-IsSound sys i [] d h = h
check_each-IsSound sys i (t ∷ ts) d h =
    elim (Bool-cases (dont_care_slot i || is_card_type_invalid t)) [
      | inl e ↦ rw e (check_each-IsSound sys (suc i) ts d h)
      | inr e ↦ rw e (
          Holds-bind IsSound IsSound (handle_new_type sys (dynamic_of i) t d)
            (λ d1. check_each sys (suc i) ts d1) (handle_new_type-IsSound sys (dynamic_of i) t d h)
            (λ d1 k. check_each-IsSound sys (suc i) ts d1 k))
    ]

pub handle_card_change-IsSound :
    (sys : Sys) (s t : ℤ) (d : Daemon) → IsSound d → Holds Kept (handle_card_change sys s t d)
unfolding handle_card_change
handle_card_change-IsSound sys s t d h =
    elim (Bool-cases (is_slot_err s || is_card_type_invalid t)) [
      | inl e ↦ rw e h
      | inr e ↦ elim (Bool-cases (dont_care_slot (index s))) [
        | inl f ↦ rw (e, f) h
        | inr f ↦
            rw (e, f)
              (Holds-bind IsSound Kept (handle_new_type sys (dynamic_of (index s)) t d)
                (λ d1. ok (pos 0, d1)) (handle_new_type-IsSound sys (dynamic_of (index s)) t d h)
                (λ d1 k. k))
      ]
    ]
