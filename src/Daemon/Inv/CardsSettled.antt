-- ===== src/Daemon/Inv/CardsSettled.antt =====
-- Reports of card types keep managers settled.
use linux_drv.Prelude.{
  Bool-cases, List, Option-cases, [], arith, false, inl, inr, is_null, ltb, negsuc, pos, refl, some,
  suc, true, ℕ, ℤ, ◌+◌, ◌||◌, ◌∷◌, ◌≡◌,
}
use linux_drv.Card.{etindev_null, index, is_card_n_null, is_slot_err}
use linux_drv.Daemon.Cards.{
  card_gone, card_there, check_each, dont_care_slot, handle_card_change, handle_new_type,
  is_card_type_invalid, online_filter_count, put_card,
}
use linux_drv.Daemon.Inv.Restart.{SettledPair}
use linux_drv.Daemon.Inv.Settled.{
  Fine, Fine-bind, IsSettled, OthersSettled, Fine-Same-IsSettled, dequeue-IsSettled,
  enqueue-IsSettled, others, put-IsSettled, Same-IsSettled, term_prc-Same,
}
use linux_drv.Daemon.Manager.{del_from2_start, have_card_inserted, on_off}
use linux_drv.Daemon.Runtime.{term_prc}
use linux_drv.Daemon.State.{Card, Daemon, Sys, dynamic_of, eqz, is_normal, ok, on_off_line}

-- A report that leaves the card as it was.
keep_card-IsSettled :
    (m : ℕ) (c c1 : Card) (d : Daemon)
    → (d.mngs m).card ≡ some c
    → have_card_inserted c1 ≡ have_card_inserted c
    → IsSettled d
    → IsSettled (put_card m c1 d)
keep_card-IsSettled m c c1 d e f h =
    put-IsSettled m (record (d.mngs m) { card = some c1 }) d (put_card m c1 d) refl refl
      (λ k. ground (arith, h.waits m k, e, f)) (others m d h) h.serving

put_card-others : (m : ℕ) (c : Card) (d : Daemon) → IsSettled d → OthersSettled m (put_card m c d)
put_card-others m c d h n ne k = ground (arith, h.waits n)

card_gone-IsSettled :
    (sys : Sys) (m : ℕ) (c : Card) (d : Daemon)
    → (d.mngs m).card ≡ some c
    → have_card_inserted c ≡ true
    → IsSettled d
    → Fine IsSettled (card_gone sys m c d)
unfolding card_gone on_off
card_gone-IsSettled sys m c d e f h =
    let c1 = record c { card_kind = etindev_null; card_kind_new = etindev_null } in
    let d1 = put_card m c1 d in
    elim (Option-cases (d.mngs m).child) [
      | inl k ↦
          rw (k, card_gone)
            (Fine-bind IsSettled IsSettled (del_from2_start m d1) _
              (dequeue-IsSettled m d1 (ground (arith, h.waits m k, e, f)) (λ _. ground arith)
                (put_card-others m c1 d h) h.serving)
              (λ d2 j. Same-IsSettled d2 _ (refl, refl) j))
      | inr (i, k) ↦
          let h1 : IsSettled d1 =
            put-IsSettled m (record (d.mngs m) { card = some c1 }) d d1 refl refl
              (λ j. absurd (ground (arith, j, k))) (others m d h) h.serving in
          elim (Bool-cases (is_normal (d.rts i).state)) [
            | inl g ↦
                rw (k, g, card_gone)
                  (Fine-Same-IsSettled d1 (term_prc sys i d1) (term_prc-Same sys i d1) h1)
            | inr g ↦ rw (k, g, card_gone) h1
          ]
    ]

new_kind : (t u : ℤ) → eqz t u ≡ false → is_card_n_null u ≡ false → is_card_n_null t ≡ true
new_kind (pos n) u e f = refl
new_kind (negsuc n) (pos k) e f = absurd (ground (arith, f))
new_kind (negsuc n) (negsuc k) e f = ground (arith, e, f)

card_there-IsSettled :
    (sys : Sys) (m : ℕ) (c : Card) (t : ℤ) (d : Daemon)
    → (d.mngs m).card ≡ some c
    → have_card_inserted c ≡ false
    → is_card_n_null t ≡ true
    → IsSettled d
    → Fine IsSettled (card_there sys m c t d)
unfolding card_there on_off
card_there-IsSettled sys m c t d e f ft h =
    let c1 = record c { cnt4_filter = c.cnt4_filter + 1 } in
    let c2 = record c1 { cnt4_filter = 0; card_kind = t; card_kind_new = etindev_null } in
    let h1 = keep_card-IsSettled m c c1 d e refl h in
    elim (Bool-cases (ltb c1.cnt4_filter online_filter_count)) [
      | inl g ↦ rw g h1
      | inr g ↦ elim (Bool-cases (is_null (d.mngs m).child)) [
        | inr k ↦ rw (g, k) h1
        | inl k ↦
            rw (g, k)
              (enqueue-IsSettled m
                (record (put_card m c2 d) { calls = on_off_line c.slot_no t ∷ d.calls })
                (ground (arith, h.waits m, k, e, f)) (λ _. ground (arith, ft))
                (put_card-others m c2 d h) h.serving)
      ]
    ]

pub handle_new_type-IsSettled :
    (sys : Sys) (m : ℕ) (t : ℤ) (d : Daemon)
    → IsSettled d
    → Fine IsSettled (handle_new_type sys m t d)
unfolding handle_new_type
handle_new_type-IsSettled sys m t d h = elim (Option-cases (d.mngs m).card) [
  | inl e ↦ rw (e, handle_new_type) h
  | inr (c, e) ↦ elim (Bool-cases (eqz t c.card_kind)) [
    | inl f ↦ rw (e, f, handle_new_type) (keep_card-IsSettled m c _ d e refl h)
    | inr f ↦ elim (Bool-cases (is_card_n_null c.card_kind)) [
      | inl g ↦ rw (e, f, g, handle_new_type) (card_gone-IsSettled sys m c d e g h)
      | inr g ↦ elim (Bool-cases (eqz t c.card_kind_new)) [
        | inr k ↦ rw (e, f, g, k, handle_new_type) (keep_card-IsSettled m c _ d e refl h)
        | inl k ↦
            rw (e, f, g, k, handle_new_type)
              (card_there-IsSettled sys m c t d e g (new_kind t c.card_kind f g) h)
      ]
    ]
  ]
]

pub check_each-IsSettled :
    (sys : Sys) (i : ℕ) (ts : List ℤ) (d : Daemon)
    → IsSettled d
    → Fine IsSettled (check_each sys i ts d)
unfolding check_each
check_each-IsSettled sys i [] d h = h
check_each-IsSettled sys i (t ∷ ts) d h =
    elim (Bool-cases (dont_care_slot i || is_card_type_invalid t)) [
      | inl e ↦ rw e (check_each-IsSettled sys (suc i) ts d h)
      | inr e ↦ rw e (
          Fine-bind IsSettled IsSettled (handle_new_type sys (dynamic_of i) t d)
            (λ d1. check_each sys (suc i) ts d1)
            (handle_new_type-IsSettled sys (dynamic_of i) t d h)
            (check_each-IsSettled sys (suc i) ts))
    ]

pub handle_card_change-IsSettled :
    (sys : Sys) (s t : ℤ) (d : Daemon)
    → IsSettled d
    → Fine SettledPair (handle_card_change sys s t d)
unfolding handle_card_change
handle_card_change-IsSettled sys s t d h =
    elim (Bool-cases (is_slot_err s || is_card_type_invalid t)) [
      | inl e ↦ rw e h
      | inr e ↦ elim (Bool-cases (dont_care_slot (index s))) [
        | inl f ↦ rw (e, f) h
        | inr f ↦
            rw (e, f)
              (Fine-bind IsSettled SettledPair (handle_new_type sys (dynamic_of (index s)) t d)
                (λ d1. ok (pos 0, d1)) (handle_new_type-IsSettled sys (dynamic_of (index s)) t d h)
                (λ d1 k. k))
      ]
    ]
