-- ===== src/Daemon/Filter.antt =====
-- How many reports of a card bring it online: `handleNewType`.
use linux_drv.Prelude.{
  ==_self, List, [], ap, arith, false, inl, inr, is_null, ltb, negsuc, none, pos, refl, some, true,
  ℕ, ℤ, ◌+◌, ◌∷◌, ◌≡◌,
}
use linux_drv.Card.{etindev_null, is_card_n_null}
use linux_drv.Daemon.Cards.{card_there, handle_new_type, online_filter_count, put_card}
use linux_drv.Daemon.Inv.Defs.{is_queued}
use linux_drv.Daemon.Inv.Moves.{at}
use linux_drv.Daemon.Inv.Ops.{Link-cases}
use linux_drv.Daemon.Inv.Settled.{Fine, Fine-bind}
use linux_drv.Daemon.Manager.{add_in2_start, have_card_inserted, on_off}
use linux_drv.Daemon.State.{
  Card, Daemon, Link, Mng, Run, Sys, SysCall, eqz, ok, on_off_line, queued, ◌>>=◌,
}

-- Reports of types for one slot, one after the other.
abbrev pub reports : Sys → ℕ → List ℤ → Daemon → Run Daemon
reports sys m [] d = ok d
reports sys m (t ∷ ts) d = handle_new_type sys m t d >>= λ d1. reports sys m ts d1

pub eqz_self : (t : ℤ) → eqz t t ≡ true
eqz_self (pos n) = ground arith
eqz_self (negsuc n) = ground arith

null_differs : (t u : ℤ) → is_card_n_null t ≡ true → is_card_n_null u ≡ false → eqz t u ≡ false
null_differs (pos n) (pos k) e f = absurd (ground (arith, f))
null_differs (pos n) (negsuc k) e f = ground (arith, f)
null_differs (negsuc n) (pos k) e f = absurd (ground (arith, f))
null_differs (negsuc n) (negsuc k) e f = ground (arith, e, f)

-- A slot's manager without a process, and the system calls until now.
abbrev pub waiting_slot : Link → Card → Mng
waiting_slot q c = record { child = none; link = q; card = some c }

abbrev pub IsAt : ℕ → Mng → List SysCall → Daemon → Type 0
IsAt m x cs d = (d.mngs m ≡ x) × (d.calls ≡ cs)

-- The card of the type `t` is inserted and the driver was told so.
abbrev pub IsOnline : ℕ → Card → ℤ → List SysCall → Daemon → Type 0
IsOnline m c t cs =
    IsAt m
      (waiting_slot queued
        (record c { cnt4_filter = 0; card_kind = t; card_kind_new = etindev_null }))
      (on_off_line c.slot_no t ∷ cs)

queue_slot :
    (m : ℕ) (x : Mng) (cs : List SysCall) (d : Daemon)
    → is_queued x.link ≡ false
    → IsAt m x cs d
    → Fine (IsAt m (record x { link = queued }) cs) (add_in2_start m d)
unfolding add_in2_start
queue_slot m x cs d nq (e, l) =
    let now : at m (record (d.mngs m) { link = queued }) d.mngs m ≡ record x { link = queued } =
      (rw (==_self m) (ap (λ (y : Mng). record y { link = queued }) e)) in
    elim (Link-cases (d.mngs m).link) [
      | inl p ↦ rw (p, add_in2_start) (now, l)
      | inr (inl p) ↦ rw (p, add_in2_start) (now, l)
      | inr (inr p) ↦ absurd (ground (arith, nq, p, ap (λ y. y.link) e))
    ]

module _ (sys : Sys) (m : ℕ) (t : ℤ) (q : Link) (cs : List SysCall) where
  -- A new type is only written down.
  recorded :
      (c : Card) (d : Daemon)
      → have_card_inserted c ≡ false
      → eqz t c.card_kind ≡ false
      → eqz t c.card_kind_new ≡ false
      → IsAt m (waiting_slot q c) cs d
      → Fine
          (IsAt m (waiting_slot q (record c { card_kind_new = t; cnt4_filter = 0 })) cs)
          (handle_new_type sys m t d)
  unfolding handle_new_type
  recorded c d g f k (e, l) = rw (e, g, f, k, handle_new_type) (rw (==_self m, e) refl, l)

  -- The same type again is counted.
  counted :
      (c : Card) (d : Daemon)
      → have_card_inserted c ≡ false
      → eqz t c.card_kind ≡ false
      → eqz t c.card_kind_new ≡ true
      → ltb (c.cnt4_filter + 1) online_filter_count ≡ true
      → IsAt m (waiting_slot q c) cs d
      → Fine
          (IsAt m (waiting_slot q (record c { cnt4_filter = c.cnt4_filter + 1 })) cs)
          (handle_new_type sys m t d)
  unfolding handle_new_type card_there
  counted c d g f k b (e, l) = rw (e, g, f, k, b, handle_new_type) (rw (==_self m, e) refl, l)

  -- Until it has come often enough.
  switched_on :
      (c : Card) (d : Daemon)
      → is_queued q ≡ false
      → have_card_inserted c ≡ false
      → eqz t c.card_kind ≡ false
      → eqz t c.card_kind_new ≡ true
      → ltb (c.cnt4_filter + 1) online_filter_count ≡ false
      → IsAt m (waiting_slot q c) cs d
      → Fine (IsOnline m c t cs) (handle_new_type sys m t d)
  unfolding handle_new_type card_there on_off
  switched_on c d nq g f k b (e, l) =
      let c2 = record c { cnt4_filter = 0; card_kind = t; card_kind_new = etindev_null } in
      let inside : (d.mngs m).card ≡ some c = ap (λ x. x.card) e in
      let alone : is_null (d.mngs m).child ≡ true = ap (λ x. is_null x.child) e in
      rw (inside, g, f, k, b, alone, handle_new_type)
        (queue_slot m (waiting_slot q c2) (on_off_line c.slot_no t ∷ cs)
          (record (put_card m c2 d) { calls = on_off_line c.slot_no t ∷ d.calls }) nq
          (rw (==_self m, e) refl, ap (λ x. on_off_line c.slot_no t ∷ x) l))

  -- A slot without a card or a process. Three reports of a new type leave the system alone; the
  -- fourth one takes the card for inserted, tells the driver in one ioctl and lets the manager wait
  -- for its process.
  pub reports_lem :
      (c : Card) (d : Daemon)
      → is_queued q ≡ false
      → have_card_inserted c ≡ false
      → is_card_n_null t ≡ true
      → eqz t c.card_kind_new ≡ false
      → IsAt m (waiting_slot q c) cs d
      → Fine
          (IsAt m (waiting_slot q (record c { card_kind_new = t; cnt4_filter = 2 })) cs)
          (reports sys m (t ∷ t ∷ t ∷ []) d)
        × Fine (IsOnline m c t cs) (reports sys m (t ∷ t ∷ t ∷ t ∷ []) d)
  reports_lem c d nq g v k h =
      let f = null_differs t c.card_kind v g in
      let one = record c { card_kind_new = t; cnt4_filter = 0 } in
      let two = record c { card_kind_new = t; cnt4_filter = 1 } in
      let three = record c { card_kind_new = t; cnt4_filter = 2 } in
      let s = eqz_self t in
      let last : (ts : List ℤ) (P : Daemon → Type 0)
          → ((d3 : Daemon) → IsAt m (waiting_slot q three) cs d3 → Fine P (reports sys m ts d3))
          → Fine P (reports sys m (t ∷ t ∷ t ∷ ts) d) =
        (λ ts P then.
          Fine-bind (IsAt m (waiting_slot q one) cs) P _ _ (recorded c d g f k h) (λ d1 h1.
            Fine-bind (IsAt m (waiting_slot q two) cs) P _ _ (counted one d1 g f s refl h1)
              (λ d2 h2.
                Fine-bind (IsAt m (waiting_slot q three) cs) P _ _ (counted two d2 g f s refl h2)
                  then))) in
      (
        last [] _ (λ d3 h3. h3),
        last (t ∷ []) _ (λ d3 h3.
            Fine-bind (IsOnline m three t cs) (IsOnline m c t cs) (handle_new_type sys m t d3) ok
              (switched_on three d3 nq g f s refl h3) (λ d4 h4. h4)),
      )
