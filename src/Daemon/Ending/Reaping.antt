-- ===== src/Daemon/Ending/Reaping.antt =====
-- Stopping the managers of an ending daemon, whose processes are reaped.
use linux_drv.Prelude.{
  not, ◌&&◌, ap, ==_self, Bool-cases, Option-cases, arith, false, inl, inr, is_neg, negsuc, none,
  refl, some, suc, true, zero, pos, ℕ, ◌+◌, ◌<◌, ◌==◌, ◌∙◌, ◌∷◌, ◌≡◌,
}
use linux_drv.Card.{etindev_null}
use linux_drv.Daemon.Inv.Defs.{is_queued}
use linux_drv.Daemon.Inv.Moves.{at}
use linux_drv.Daemon.Inv.Ops.{Link-cases}
use linux_drv.Daemon.Live.{Done, Done-bind, Done-map}
use linux_drv.Daemon.Manager.{
  add_in2_start, card_stopped, have_card_inserted, on_off, queued_again, released, stop, sub_stop,
}
use linux_drv.Daemon.Runtime.{release_stopped, rt_stop, s_release}
use linux_drv.Daemon.State.{
  Daemon, Sys, SysCall, accept, ok, on_off_line, put_rt, queued, rt_null, waitpid,
}
use linux_drv.Daemon.Stop.{each_down}
use linux_drv.Daemon.Ending.Signals.{IsStoppable, WasMade, CanReap}

-- The manager has no process, and none has got one.
abbrev pub IsGone : ℕ → Daemon → Type 0
IsGone m d = (d.mngs m).child ≡ none

record HasEnded (m : ℕ) (d d1 : Daemon) : Type 0 where
  stoppable : IsStoppable d1
  gone : IsGone m d1
  none_new : (k : ℕ) → IsGone k d → IsGone k d1
  calls : (c : SysCall) → WasMade c d.calls → WasMade c d1.calls
  exiting : d1.exit_flag ≡ d.exit_flag
  timer : d1.card_timer ≡ d.card_timer

-- The log grows.
logged-HasEnded :
    (m : ℕ) (d d1 : Daemon) (c : SysCall)
    → HasEnded m d d1
    → HasEnded m d (record d1 { calls = c ∷ d1.calls })
logged-HasEnded m d d1 c h = record {
  stoppable = record { down = h.stoppable.down; idle = h.stoppable.idle };
  gone = h.gone;
  none_new = h.none_new;
  calls = λ k w. inr (h.calls k w);
  exiting = h.exiting;
  timer = h.timer;
}

-- A manager joins the queue.
queued-HasEnded :
    (m : ℕ) (d d1 d2 : Daemon)
    → HasEnded m d d1
    → (d2.mngs ≡ at m (record (d1.mngs m) { link = queued }) d1.mngs)
      × (d2.rts ≡ d1.rts)
      × (d2.calls ≡ d1.calls)
      × (d2.exit_flag ≡ d1.exit_flag)
      × (d2.card_timer ≡ d1.card_timer)
    → HasEnded m d d2
queued-HasEnded m d d1 d2 h (ms, rs, cs, x, t) =
    let now : (k : ℕ) → d2.mngs k ≡ at m (record (d1.mngs m) { link = queued }) d1.mngs k =
      (λ k. ap (λ f. f k) ms) in
    let rt : (k : ℕ) → d2.rts k ≡ d1.rts k = (λ k. ap (λ f. f k) rs) in
    record {
      stoppable = record {
        down = λ k i e. ground (arith, now k, rt i, e, h.stoppable.down k i);
        idle = λ k e. ground (arith, now k, e, h.stoppable.idle k, h.gone);
      };
      gone = ground (arith, now m, h.gone);
      none_new = λ k e. ground (arith, now k, h.none_new k e);
      calls = λ c w. rw cs (h.calls c w);
      exiting = x ∙ h.exiting;
      timer = t ∙ h.timer;
    }

queued_again-HasEnded :
    (m : ℕ) (d d1 : Daemon)
    → HasEnded m d d1
    → is_queued (d1.mngs m).link ≡ false
    → Done (λ r. HasEnded m d r.1) (queued_again m d1)
unfolding queued_again add_in2_start
queued_again-HasEnded m d d1 h nq = elim (Link-cases (d1.mngs m).link) [
  | inl e ↦
      rw (e, queued_again, add_in2_start)
        (queued-HasEnded m d d1 _ h (refl, refl, refl, refl, refl))
  | inr (inl e) ↦
      rw (e, queued_again, add_in2_start)
        (queued-HasEnded m d d1 _ h (refl, refl, refl, refl, refl))
  | inr (inr e) ↦ absurd (ground (arith, nq, e))
]

released-HasEnded :
    (sys : Sys) (m : ℕ) (d d1 : Daemon)
    → d.exit_flag ≡ true
    → HasEnded m d d1
    → is_queued (d1.mngs m).link ≡ false
    → Done (λ r. HasEnded m d r.1) (released sys m (pos 0, d1))
unfolding released card_stopped on_off
released-HasEnded sys m d d1 x h nq = elim (Option-cases (d1.mngs m).card) [
  | inl e ↦ rw (e, released) (queued_again-HasEnded m d d1 h nq)
  | inr (c, e) ↦
      let off = on_off_line c.slot_no etindev_null in
      let ended = logged-HasEnded m d d1 off h in
      let leaving : d1.exit_flag ≡ true = h.exiting ∙ x in
      elim (Bool-cases (is_neg (sys d1.calls off))) [
        | inl f ↦ rw (e, f, released) ended
        | inr f ↦
            let no_more : not (have_card_inserted c && not d1.exit_flag) ≡ true =
              ground (arith, leaving) in
            rw (e, f, no_more, released) ended
      ]
]

-- The process of a manager was reaped.
reaped :
    (m i : ℕ) (d : Daemon)
    → (d.mngs m).child ≡ some i
    → IsStoppable d
    → Done
        (λ r. (r.0 ≡ pos 0) × HasEnded m d r.1 × (is_queued (r.1.mngs m).link ≡ false))
        (release_stopped i (
          pos 0,
          put_rt i
              (record (d.rts i) { state = rt_null; pid = negsuc 0 })
              (record d { calls = waitpid (d.rts i).pid ∷ d.calls }),
        ))
unfolding release_stopped accept
reaped m i d has h =
    rw (==_self i, h.down m i has)
      (
        refl,
        record {
          stoppable = record {
            down = λ k j e. ground (arith, e, h.down k j, h.down m i has);
            idle = λ k e. ground (arith, e, h.idle k);
          };
          gone = ground arith;
          none_new = λ k e. ground (arith, e);
          calls = λ c w. inr w;
          exiting = refl;
          timer = refl;
        },
        ground (arith, h.idle m, has),
      )

stop_lem :
    (sys : Sys) (m : ℕ) (d : Daemon)
    → CanReap sys
    → d.exit_flag ≡ true
    → IsStoppable d
    → Done (HasEnded m d) (stop sys m d)
unfolding stop sub_stop s_release rt_stop
stop_lem sys m d can x h = elim (Option-cases (d.mngs m).child) [
  | inl e ↦
      rw (e, stop)
        (record {
          stoppable = h;
          gone = e;
          none_new = λ k g. g;
          calls = λ c w. w;
          exiting = refl;
          timer = refl;
        })
  | inr (i, e) ↦
      rw (e, can d.calls (d.rts i).pid, stop)
        (Done-bind (λ r. HasEnded m d r.1) (HasEnded m d) _ (λ r. ok r.1)
          (Done-bind (λ r. (r.0 ≡ pos 0) × HasEnded m d r.1 × (is_queued (r.1.mngs m).link ≡ false))
            (λ r. HasEnded m d r.1) _ (λ r. released sys m r) (reaped m i d e h)
            (λ (n, d1) (z, k, nq). rw z (released-HasEnded sys m d d1 x k nq)))
          (λ r k. k))
]

-- What the loop over the managers leaves.
abbrev pub HaveEnded : ℕ → ℕ → Daemon → Daemon → Type 0
HaveEnded base n d d1 =
    IsStoppable d1
    × ((k : ℕ) → k < n → IsGone (base + k) d1)
    × ((k : ℕ) → IsGone k d → IsGone k d1)
    × ((c : SysCall) → WasMade c d.calls → WasMade c d1.calls)
    × (d1.exit_flag ≡ d.exit_flag)
    × (d1.card_timer ≡ d.card_timer)

pub each_stopped :
    (sys : Sys) (base n : ℕ) (d : Daemon)
    → CanReap sys
    → d.exit_flag ≡ true
    → IsStoppable d
    → Done (HaveEnded base n d) (each_down (stop sys) base n d)
unfolding each_down
each_stopped sys base zero d can x h =
    (h, λ k lt. absurd (omega (arith, lt)), λ k e. e, λ c w. w, refl, refl)
each_stopped sys base (suc n) d can x h =
    Done-bind (HasEnded (base + n) d) (HaveEnded base (suc n) d) (stop sys (base + n) d) _
      (stop_lem sys (base + n) d can x h)
      (λ d1 a.
        Done-map (HaveEnded base n d1) (HaveEnded base (suc n) d) (each_down (stop sys) base n d1)
          (each_stopped sys base n d1 can (a.exiting ∙ x) a.stoppable)
          (λ d2 (st, gone, none_new, calls, y, t). (
            st,
            λ k lt. elim (Bool-cases (k == n)) [
              | inl e ↦ let k_n : k ≡ n = ground (arith, e) in rw k_n (none_new (base + n) a.gone)
              | inr e ↦ gone k (ground (arith, e))
            ],
            λ k e. none_new k (a.none_new k e),
            λ c w. calls c (a.calls c w),
            y ∙ a.exiting,
            t ∙ a.timer,
          )))
