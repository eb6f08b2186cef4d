-- ===== src/Daemon/Inv/Restart.antt =====
-- Starting and stopping a manager that is settled.
use linux_drv.Prelude.{
  ==_self, Bool-cases, List, Option-cases, ap, arith, false, inl, inr, is_neg, negsuc, none, not,
  pos, refl, some, true, ℕ, ℤ, ◌&&◌, ◌==◌, ◌∙◌, ◌∷◌, ◌≡◌, ◌⊎◌,
}
use linux_drv.Card.{etindev_null, is_card_type_err}
use linux_drv.Daemon.Inv.Defs.{IsSound, is_queued}
use linux_drv.Daemon.Inv.Managers.{rt_start_cases}
use linux_drv.Daemon.Inv.Moves.{at}
use linux_drv.Daemon.Inv.Ops.{rt_stop_cases}
use linux_drv.Daemon.Inv.Settled.{
  CanSwitch, Fine, Fine-bind, IsSettled, OthersSettled, dequeue-IsSettled, enqueue-IsSettled,
  needs_process, Same-IsSettled,
}
use linux_drv.Daemon.Manager.{
  add_in2_start, captured, card_stopped, del_from2_start, have_card_inserted, on_off, queued_again,
  released, removed, start, stop, sub_start, sub_stop,
}
use linux_drv.Daemon.Runtime.{capture, capture_started, release_stopped, s_release}
use linux_drv.Daemon.State.{
  Card, Daemon, Sys, SysCall, accept, first_entry, ok, on_off_line, put_rt, rt_null,
}

-- What a capture leaves: the managers as they were, or the manager with its process.
abbrev WithChild : ℕ → ℕ → Daemon → Daemon → Type 0
WithChild m i d d1 = d1.mngs ≡ at m (record (d.mngs m) { child = some i }) d.mngs

abbrev Taken : ℕ → Daemon → ℤ × Daemon → Type 0
Taken m d (r, d1) =
    (d1.exit_flag ≡ d.exit_flag)
    × (((is_neg r ≡ true) × (d1.mngs ≡ d.mngs))
        ⊎ ((is_neg r ≡ false) × ((i : ℕ) × WithChild m i d d1)))

capture-Taken : (sys : Sys) (m : ℕ) (d : Daemon) → Taken m d (capture sys m d)
unfolding capture capture_started accept
capture-Taken sys m d = elim (Option-cases (first_entry d.pool)) [
  | inl e ↦ rw (e, capture) (refl, inl (refl, refl))
  | inr (i, e) ↦
      rw (e, capture)
        (rt_start_cases (λ p. Taken m d (capture_started m i p)) sys m i d
          (λ n f. rw f (refl, inl (refl, refl))) (λ n f. (refl, inr (refl, (i, refl)))))
]

abbrev pub SettledPair : ℤ × Daemon → Type 0
SettledPair r = IsSettled r.1

removed-IsSettled :
    (m : ℕ) (d : Daemon)
    → is_queued (d.mngs m).link ≡ true
    → ((d.mngs m).child ≡ none → needs_process (d.mngs m).card ≡ false)
    → OthersSettled m d
    → d.exit_flag ≡ false
    → Fine SettledPair (removed m d)
unfolding removed
removed-IsSettled m d q here there f =
    Fine-bind IsSettled SettledPair (del_from2_start m d) (λ d1. ok (pos 0, d1))
      (dequeue-IsSettled m d q here there f) (λ d1 k. k)

queued_again-IsSettled :
    (m : ℕ) (d : Daemon)
    → is_queued (d.mngs m).link ≡ false
    → ((d.mngs m).child ≡ none → needs_process (d.mngs m).card ≡ true)
    → OthersSettled m d
    → d.exit_flag ≡ false
    → Fine SettledPair (queued_again m d)
unfolding queued_again
queued_again-IsSettled m d q here there f =
    Fine-bind IsSettled SettledPair (add_in2_start m d) (λ d1. ok (pos 0, d1))
      (enqueue-IsSettled m d q here there f) (λ d1 k. k)

captured-IsSettled :
    (m : ℕ) (d : Daemon) (r : ℤ × Daemon)
    → Taken m d r
    → is_queued (d.mngs m).link ≡ true
    → IsSettled d
    → Fine SettledPair (captured m r)
unfolding captured
captured-IsSettled m d (n, d1) (f, inl (e, g)) q h = rw e (Same-IsSettled d d1 (g, f) h)
captured-IsSettled m d (n, d1) (f, inr (e, (i, g))) q h =
    let now : (k : ℕ) → d1.mngs k ≡ at m (record (d.mngs m) { child = some i }) d.mngs k =
      (λ k. ap (λ x. x k) g) in
    rw e (
      removed-IsSettled m d1 (ground (arith, now m, q)) (λ k. absurd (ground (arith, now m, k)))
        (λ j ne k. ground (arith, now j, h.waits j)) (f ∙ h.serving))

sub_start-IsSettled :
    (sys : Sys) (m : ℕ) (d : Daemon)
    → (d.mngs m).child ≡ none
    → is_queued (d.mngs m).link ≡ true
    → IsSettled d
    → Fine SettledPair (sub_start sys m d)
unfolding sub_start
sub_start-IsSettled sys m d alone q h =
    let fork_it = captured-IsSettled m d (capture sys m d) (capture-Taken sys m d) q h in
    elim (Option-cases (d.mngs m).card) [
      | inl e ↦ rw (e, sub_start) fork_it
      | inr (c, e) ↦ elim (Bool-cases (have_card_inserted c)) [
        | inr f ↦ absurd (ground (arith, h.waits m alone, q, e, f))
        | inl f ↦ elim (Bool-cases (is_card_type_err c.card_kind)) [
          | inl g ↦ rw (e, f, g, sub_start) h
          | inr g ↦ rw (e, f, g, sub_start) fork_it
        ]
      ]
    ]

pub start-IsSettled :
    (sys : Sys) (m : ℕ) (d : Daemon)
    → is_queued (d.mngs m).link ≡ true
    → IsSettled d
    → Fine IsSettled (start sys m d)
unfolding start
start-IsSettled sys m d q h = elim (Option-cases (d.mngs m).child) [
  | inr (i, e) ↦ rw (e, start) h
  | inl e ↦
      rw (e, start)
        (Fine-bind SettledPair IsSettled (sub_start sys m d) (λ r. ok r.1)
          (sub_start-IsSettled sys m d e q h) (λ a k. k))
]

-- A manager whose process is gone.
record IsLeft (m : ℕ) (d : Daemon) : Type 0 where
  alone : (d.mngs m).child ≡ none
  not_queued : is_queued (d.mngs m).link ≡ false
  rest : OthersSettled m d
  serving : d.exit_flag ≡ false

card_stopped-IsSettled :
    (sys : Sys) (m : ℕ) (c : Card) (d : Daemon)
    → CanSwitch sys
    → (d.mngs m).card ≡ some c
    → IsLeft m d
    → Fine SettledPair (card_stopped sys m c d)
unfolding card_stopped on_off
card_stopped-IsSettled sys m c d can e h =
    let off = on_off_line c.slot_no etindev_null in
    let again = on_off_line c.slot_no c.card_kind in
    rw (can d.calls c.slot_no etindev_null, can (off ∷ d.calls) c.slot_no c.card_kind)
      (elim (Bool-cases (have_card_inserted c && not d.exit_flag)) [
        | inl f ↦ rw f (
            queued_again-IsSettled m (record d { calls = again ∷ off ∷ d.calls }) h.not_queued
              (λ _. ground (arith, e, f)) h.rest h.serving)
        | inr f ↦ rw f (record {
          waits = λ k alone. elim (Bool-cases (k == m)) [
            | inl g ↦ ground (arith, g, e, f, h.not_queued, h.serving)
            | inr g ↦ ground (arith, g, h.rest k)
          ];
          serving = h.serving;
        })
      ])

released-IsSettled :
    (sys : Sys) (m : ℕ) (n : ℤ) (d : Daemon)
    → CanSwitch sys
    → is_neg n ≡ false
    → IsLeft m d
    → Fine SettledPair (released sys m (n, d))
unfolding released
released-IsSettled sys m n d can e h = rw e (elim (Option-cases (d.mngs m).card) [
  | inl f ↦
      rw (f, released)
        (queued_again-IsSettled m d h.not_queued (λ _. ground (arith, f)) h.rest h.serving)
  | inr (c, f) ↦ rw (f, released) (card_stopped-IsSettled sys m c d can f h)
])

-- What a release leaves.
abbrev Left : ℕ → ℤ × Daemon → Type 0
Left m (r, d) = ((is_neg r ≡ true) × IsSettled d) ⊎ ((is_neg r ≡ false) × IsLeft m d)

stopped-Left :
    (i m : ℕ) (d : Daemon) (cs : List SysCall)
    → (d.mngs m).child ≡ some i
    → IsSound d
    → IsSettled d
    → Fine (Left m) (
        release_stopped i (
          pos 0,
          put_rt i (record (d.rts i) { state = rt_null; pid = negsuc 0 }) (record d { calls = cs }),
        ))
unfolding release_stopped accept
stopped-Left i m d cs has h k =
    rw (==_self i, h.linked.down m i has)
      (inr (
        refl,
        record {
          alone = ground arith;
          not_queued = ground (arith, h.is_waiting.idle m, has);
          rest = λ n ne e. ground (arith, k.waits n);
          serving = k.serving;
        },
      ))

s_release-Left :
    (sys : Sys) (i m : ℕ) (d : Daemon)
    → (d.mngs m).child ≡ some i
    → IsSound d
    → IsSettled d
    → Fine (Left m) (s_release sys i d)
unfolding s_release release_stopped
s_release-Left sys i m d has h k =
    rt_stop_cases (λ p. Fine (Left m) (release_stopped i p)) sys i d
      (λ cs. inl (refl, Same-IsSettled d (record d { calls = cs }) (refl, refl) k))
      (λ cs. stopped-Left i m d cs has h k)

Left-IsSettled :
    (sys : Sys) (m : ℕ) (r : ℤ × Daemon)
    → CanSwitch sys
    → Left m r
    → Fine SettledPair (released sys m r)
unfolding released
Left-IsSettled sys m (n, d) can (inl (e, h)) = rw e h
Left-IsSettled sys m (n, d) can (inr (e, h)) = released-IsSettled sys m n d can e h

pub stop-IsSettled :
    (sys : Sys) (m : ℕ) (d : Daemon)
    → CanSwitch sys
    → IsSound d
    → IsSettled d
    → Fine IsSettled (stop sys m d)
unfolding stop sub_stop
stop-IsSettled sys m d can h k = elim (Option-cases (d.mngs m).child) [
  | inl e ↦ rw (e, stop) k
  | inr (i, e) ↦
      rw (e, stop)
        (Fine-bind SettledPair IsSettled (sub_stop sys m i d) (λ r. ok r.1)
          (Fine-bind (Left m) SettledPair (s_release sys i d) (λ r. released sys m r)
            (s_release-Left sys i m d e h k) (λ r. Left-IsSettled sys m r can))
          (λ a j. j))
]
