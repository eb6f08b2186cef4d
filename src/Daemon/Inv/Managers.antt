-- ===== src/Daemon/Inv/Managers.antt =====
-- Starting and stopping a manager keeps the invariant.
use linux_drv.Prelude.{
  ==_self, Bool-cases, List, Option-cases, [], arith, false, inl, inr, is_neg, none, not, pos, refl,
  some, sym, true, ℕ, ℤ, ◌&&◌, ◌<◌, ◌∷◌, ◌≡◌, ◌⊎◌,
}
use mathlib.Core.Path.{subst}
use linux_drv.Card.{etindev_null, is_card_type_err}
use linux_drv.Daemon.Inv.Defs.{HasPid, IsLinked, IsListed, IsSound, count, list_of}
use linux_drv.Daemon.Inv.Moves.{accept-IsListed, at, at-at, attach-IsLinked, keep-HasPid}
use linux_drv.Daemon.Inv.Ops.{
  Holds, Holds-bind, IsSound-IsSoundBut, IsSoundBut, Released, add_in2_start-IsSound,
  del_from2_start-IsSound, s_release-IsSound, same-IsSound,
}
use linux_drv.Daemon.Manager.{
  add_in2_start, captured, card_stopped, del_from2_start, have_card_inserted, on_off, queued_again,
  released, removed, start, stop, sub_start, sub_stop,
}
use linux_drv.Daemon.Runtime.{capture, capture_started, rt_start, s_release}
use linux_drv.Daemon.State.{
  Card, Daemon, Sys, SysCall, accept, call, first_entry, fork, ok, on_off_line, pool_size, put_rt,
  rt_normal, rt_null,
}

pub count_first : (i : ℕ) (xs : List ℕ) → first_entry xs ≡ some i → 0 < count i xs
count_first i [] e = absurd (ground (arith, e))
count_first i (x ∷ xs) e = ground (arith, e)

-- The first entry of the pool is free.
pool_first :
    (i : ℕ) (d : Daemon)
    → IsSound d
    → first_entry d.pool ≡ some i
    → (i < pool_size) × ((d.rts i).parent ≡ none)
pool_first i d h e =
    let c = count_first i d.pool e in
    (ground (arith, c, h.listed rt_null i), ground (arith, c, h.listed rt_null i, h.linked.used i))

abbrev Captured : ℕ → ℤ × Daemon → Type 0
Captured m (r, d) = ((is_neg r ≡ true) × IsSound d) ⊎ ((is_neg r ≡ false) × IsSoundBut m d)

pub rt_start_cases {κ} :
    (P : ℤ × Daemon → Type κ) (sys : Sys) (m i : ℕ) (d : Daemon)
    → ((n : ℤ) → is_neg n ≡ true → P (n, call (fork m) d))
    → ((n : ℤ)
        → is_neg n ≡ false
        → P (pos 0, put_rt i (record (d.rts i) { state = rt_normal; pid = n }) (call (fork m) d)))
    → P (rt_start sys m i d)
unfolding rt_start
rt_start_cases P sys m i d bad good =
    let n = sys d.calls (fork m) in
    elim (Bool-cases (is_neg n)) [ inl e ↦ rw e (bad n e) | inr e ↦ rw e (good n e) ]

started-Captured :
    (m i : ℕ) (d : Daemon) (n : ℤ)
    → is_neg n ≡ false
    → (d.mngs m).child ≡ none
    → (i < pool_size) × ((d.rts i).parent ≡ none)
    → IsSound d
    → Captured m (
        capture_started m i
          (pos 0, put_rt i (record (d.rts i) { state = rt_normal; pid = n }) (call (fork m) d)))
unfolding capture_started accept
started-Captured m i d n e alone free h =
    let r = record (d.rts i) { state = rt_normal; pid = n; parent = some m } in
    let x = record (d.mngs m) { child = some i } in
    let r1 = record (d.rts i) { state = rt_normal; pid = n } in
    let two : at i r d.rts ≡ at i r (at i r1 d.rts) = sym (at-at i r r1 d.rts) in
    rw (==_self i) (
      inr (
        refl,
        record {
          listed =
              subst (λ f. IsListed f (list_of (accept rt_normal i d))) two
                (accept-IsListed d d rt_normal i r h.listed free.0 refl (λ t. refl));
          linked =
              subst (λ f. IsLinked f (at m x d.mngs)) two
                (attach-IsLinked d.rts d.mngs i m r x free.1 alone free.0 refl refl refl h.linked);
          has_pid = subst HasPid two (keep-HasPid d.rts i r (λ _. e) h.has_pid);
          once = λ k. ground (arith, h.is_waiting.once k);
          idle = λ k ne q. ground (arith, h.is_waiting.idle k);
        },
      ))

refused :
    (m i : ℕ) (d : Daemon) (n : ℤ)
    → is_neg n ≡ true
    → IsSound d
    → Captured m (capture_started m i (n, call (fork m) d))
unfolding capture_started
refused m i d n e h = rw e (
    inl (
      refl,
      same-IsSound d (fork m ∷ d.calls) d.start_timer d.term_timer d.kill_timer d.exit_flag
          d.need_kill h,
    ))

capture-IsSound :
    (sys : Sys) (m : ℕ) (d : Daemon)
    → (d.mngs m).child ≡ none
    → IsSound d
    → Captured m (capture sys m d)
unfolding capture
capture-IsSound sys m d alone h = elim (Option-cases (first_entry d.pool)) [
  | inl e ↦ rw (e, capture) (inl (refl, h))
  | inr (i, e) ↦
      rw (e, capture)
        (rt_start_cases (λ p. Captured m (capture_started m i p)) sys m i d
          (λ n f. refused m i d n f h)
          (λ n f. started-Captured m i d n f alone (pool_first i d h e) h))
]

abbrev pub Kept : ℤ × Daemon → Type 0
Kept r = IsSound r.1

removed-IsSound : (m : ℕ) (d : Daemon) → IsSoundBut m d → Holds Kept (removed m d)
unfolding removed
removed-IsSound m d h =
    Holds-bind IsSound Kept (del_from2_start m d) (λ d1. ok (pos 0, d1))
      (del_from2_start-IsSound m d h) (λ a k. k)

queued_again-IsSound :
    (m : ℕ) (d : Daemon) → (d.mngs m).child ≡ none → IsSound d → Holds Kept (queued_again m d)
unfolding queued_again
queued_again-IsSound m d alone h =
    Holds-bind IsSound Kept (add_in2_start m d) (λ d1. ok (pos 0, d1))
      (add_in2_start-IsSound m d alone h) (λ a k. k)

captured-IsSound : (m : ℕ) (r : ℤ × Daemon) → Captured m r → Holds Kept (captured m r)
unfolding captured
captured-IsSound m (n, d) (inl (e, h)) = rw e h
captured-IsSound m (n, d) (inr (e, h)) = rw e (removed-IsSound m d h)

-- `subStart` of a manager with no process.
sub_start-IsSound :
    (sys : Sys) (m : ℕ) (d : Daemon)
    → (d.mngs m).child ≡ none
    → IsSound d
    → Holds Kept (sub_start sys m d)
unfolding sub_start
sub_start-IsSound sys m d alone h =
    let fork_it = captured-IsSound m (capture sys m d) (capture-IsSound sys m d alone h) in
    elim (Option-cases (d.mngs m).card) [
      | inl e ↦ rw (e, sub_start) fork_it
      | inr (c, e) ↦ elim (Bool-cases (have_card_inserted c)) [
        | inr f ↦ rw (e, f, sub_start) (removed-IsSound m d (IsSound-IsSoundBut m d h))
        | inl f ↦ elim (Bool-cases (is_card_type_err c.card_kind)) [
          | inl g ↦ rw (e, f, g, sub_start) h
          | inr g ↦ rw (e, f, g, sub_start) fork_it
        ]
      ]
    ]

pub calls-IsSound : (d : Daemon) (cs : List SysCall) → IsSound d → IsSound (record d { calls = cs })
calls-IsSound d cs h =
    same-IsSound d cs d.start_timer d.term_timer d.kill_timer d.exit_flag d.need_kill h

card_stopped-IsSound :
    (sys : Sys) (m : ℕ) (c : Card) (d : Daemon)
    → (d.mngs m).child ≡ none
    → IsSound d
    → Holds Kept (card_stopped sys m c d)
unfolding card_stopped on_off
card_stopped-IsSound sys m c d alone h =
    let off = on_off_line c.slot_no etindev_null in
    let again = on_off_line c.slot_no c.card_kind in
    let h1 = calls-IsSound d (off ∷ d.calls) h in
    let h2 = calls-IsSound d (again ∷ off ∷ d.calls) h in
    elim (Bool-cases (is_neg (sys d.calls off))) [
      | inl e ↦ rw e h1
      | inr e ↦ elim (Bool-cases (have_card_inserted c && not d.exit_flag)) [
        | inr f ↦ rw (e, f) h1
        | inl f ↦ elim (Bool-cases (is_neg (sys (off ∷ d.calls) again))) [
          | inl g ↦ rw (e, f, g) h2
          | inr g ↦
              rw (e, f, g)
                (queued_again-IsSound m (record d { calls = again ∷ off ∷ d.calls }) alone h2)
        ]
      ]
    ]

released-IsSound :
    (sys : Sys) (m : ℕ) (r : ℤ × Daemon) → Released m r → Holds Kept (released sys m r)
unfolding released
released-IsSound sys m (n, d) (h, inl e) = rw e h
released-IsSound sys m (n, d) (h, inr alone) = elim (Bool-cases (is_neg n)) [
  | inl e ↦ rw e h
  | inr e ↦ elim (Option-cases (d.mngs m).card) [
    | inl f ↦ rw (e, f, released) (queued_again-IsSound m d alone h)
    | inr (c, f) ↦ rw (e, f, released) (card_stopped-IsSound sys m c d alone h)
  ]
]

pub start-IsSound : (sys : Sys) (m : ℕ) (d : Daemon) → IsSound d → Holds IsSound (start sys m d)
unfolding start
start-IsSound sys m d h = elim (Option-cases (d.mngs m).child) [
  | inr (i, e) ↦ rw (e, start) h
  | inl e ↦
      rw (e, start)
        (Holds-bind Kept IsSound (sub_start sys m d) (λ r. ok r.1) (sub_start-IsSound sys m d e h)
          (λ a k. k))
]

pub stop-IsSound : (sys : Sys) (m : ℕ) (d : Daemon) → IsSound d → Holds IsSound (stop sys m d)
unfolding stop sub_stop
stop-IsSound sys m d h = elim (Option-cases (d.mngs m).child) [
  | inl e ↦ rw (e, stop) h
  | inr (i, e) ↦
      rw (e, stop)
        (Holds-bind Kept IsSound (sub_stop sys m i d) (λ r. ok r.1)
          (Holds-bind (Released m) Kept (s_release sys i d) (λ r. released sys m r)
            (s_release-IsSound sys i m d (h.linked.down m i e) h) (released-IsSound sys m))
          (λ a k. k))
]
