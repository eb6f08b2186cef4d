-- ===== src/Daemon/Inv/Ticks.antt =====
-- The callbacks of timers and signals keep the invariant.
use linux_drv.Prelude.{
  not, ◌||◌, Bool-cases, List, Option-cases, [], arith, false, inl, inr, is_neg, is_null, none, not,
  refl, some, true, ℕ, ℤ, ◌&&◌, ◌+◌, ◌<◌, ◌∷◌, ◌≡◌,
}
use linux_drv.Daemon.Inv.Defs.{IsSound, count, list_of, same_state}
use linux_drv.Daemon.Inv.Managers.{count_first, start-IsSound, stop-IsSound}
use linux_drv.Daemon.Inv.Moves.{keep-HasPid, keep-IsLinked}
use linux_drv.Daemon.Inv.Ops.{Holds, Holds-bind, kill_prc-IsSound, same-IsSound}
use linux_drv.Daemon.Manager.{check_need_start, start, stop}
use linux_drv.Daemon.Runtime.{can_signal, clr_times, kill_prc, signal_kill}
use linux_drv.Daemon.State.{
  Daemon, RtPrc, RtState, Run, Sys, accept, exited, fault, first_entry, is_empty, kill, ok, put_rt,
  rt_exiting, rt_killing, rt_normal, rt_null,
}
use linux_drv.Daemon.Timers.{
  bury_chld, bury_one, check_kill_timeout, check_live_each, check_live_state, check_term_timeout,
  find_obj, hello4_live, hello_each, is_live, or_else, update_live_state,
}

-- The entries of `is` are in use.
abbrev AreBusy : (ℕ → RtPrc) → List ℕ → Type 0
AreBusy rts is = (i : ℕ) → 0 < count i is → is_null (rts i).parent ≡ false

same_state_null :
    (s t : RtState) → same_state s t ≡ true → same_state rt_null s ≡ same_state rt_null t
same_state_null rt_null t e = ground arith
same_state_null rt_normal t e = ground arith
same_state_null rt_exiting t e = ground arith
same_state_null rt_killing t e = ground arith

listed_busy :
    (s : RtState) (d : Daemon)
    → same_state rt_null s ≡ false
    → IsSound d
    → AreBusy d.rts (list_of d s)
listed_busy s d e h i lt = elim (Bool-cases (same_state s (d.rts i).state)) [
  | inl f ↦ ground (arith, h.linked.used i, same_state_null s (d.rts i).state f)
  | inr f ↦ absurd (ground (arith, h.listed s i, f, lt))
]

first_busy :
    (s : RtState) (d : Daemon) (i : ℕ)
    → same_state rt_null s ≡ false
    → first_entry (list_of d s) ≡ some i
    → IsSound d
    → is_null (d.rts i).parent ≡ false
first_busy s d i e f h = listed_busy s d e h i (count_first i (list_of d s) f)

-- An entry's counts change.
counts-IsSound :
    (i a b : ℕ) (d : Daemon)
    → IsSound d
    → IsSound (put_rt i (record (d.rts i) { exp_times = a; real_times = b }) d)
counts-IsSound i a b d h =
    let r = record (d.rts i) { exp_times = a; real_times = b } in
    record {
      listed = λ s j. ground (arith, h.listed s j);
      linked = keep-IsLinked d.rts d.mngs i r refl refl h.linked;
      has_pid = keep-HasPid d.rts i r (h.has_pid i) h.has_pid;
      is_waiting = h.is_waiting;
    }

-- The loop of `sCheckLiveState` leaves the entries in use so.
abbrev LiveKept : List ℕ → Daemon → Type 0
LiveKept is d = IsSound d × AreBusy d.rts is

kill_prc-parent :
    (sys : Sys) (i : ℕ) (d : Daemon)
    → Holds (λ d1. (j : ℕ) → (d1.rts j).parent ≡ (d.rts j).parent) (kill_prc sys i d)
unfolding kill_prc signal_kill accept
kill_prc-parent sys i d = elim (Bool-cases d.need_kill) [
  | inr skip ↦ rw skip (λ j. refl)
  | inl go ↦
      elim (Bool-cases
        (not (can_signal (d.rts i).state) || is_neg (sys d.calls (kill (d.rts i).pid true)))) [
          | inl e ↦ rw (go, e) tt
          | inr e ↦ rw (go, e) (λ j. ground arith)
        ]
]

pub Holds-both {ℓ} :
    {A : Type ℓ} (P Q : A → Type 0) (r : Run A) → Holds P r → Holds Q r → Holds (λ a. P a × Q a) r
Holds-both P Q (ok a) p q = (p, q)
Holds-both P Q exited p q = tt
Holds-both P Q fault p q = tt

check_live_each-IsSound :
    (sys : Sys) (is : List ℕ) (d : Daemon)
    → AreBusy d.rts is
    → IsSound d
    → Holds IsSound (check_live_each sys is d)
unfolding check_live_each
check_live_each-IsSound sys [] d busy h = h
check_live_each-IsSound sys (i ∷ is) d busy h = elim (Bool-cases (is_live (d.rts i))) [
  | inl e ↦ rw e (
      check_live_each-IsSound sys is (put_rt i (clr_times (d.rts i)) d)
        (λ j lt. ground (arith, busy j)) (counts-IsSound i 0 0 d h))
  | inr e ↦ rw e (
      Holds-bind (λ d1. IsSound d1 × ((j : ℕ) → (d1.rts j).parent ≡ (d.rts j).parent)) IsSound
        (kill_prc sys i d) (λ d1. check_live_each sys is d1)
        (Holds-both IsSound (λ d1. (j : ℕ) → (d1.rts j).parent ≡ (d.rts j).parent)
          (kill_prc sys i d) (kill_prc-IsSound sys i d (busy i (ground arith)) h)
          (kill_prc-parent sys i d))
        (λ d1 k. check_live_each-IsSound sys is d1 (λ j lt. ground (arith, busy j, k.1 j)) k.0))
]

pub check_live_state-IsSound :
    (sys : Sys) (d : Daemon) → IsSound d → Holds IsSound (check_live_state sys d)
unfolding check_live_state
check_live_state-IsSound sys d h =
    check_live_each-IsSound sys d.normal d (listed_busy rt_normal d refl h) h

hello_each-IsSound : (is : List ℕ) (d : Daemon) → IsSound d → IsSound (hello_each is d)
unfolding hello_each
hello_each-IsSound [] d h = h
hello_each-IsSound (i ∷ is) d h =
    hello_each-IsSound is _ (counts-IsSound i ((d.rts i).exp_times + 1) (d.rts i).real_times d h)

pub hello4_live-IsSound : (d : Daemon) → IsSound d → IsSound (hello4_live d)
unfolding hello4_live
hello4_live-IsSound d h = hello_each-IsSound d.normal d h

pub update_live_state-IsSound : (p : ℤ) (d : Daemon) → IsSound d → IsSound (update_live_state p d).1
unfolding update_live_state
update_live_state-IsSound p d h = elim (Option-cases (find_obj d.rts d.normal p)) [
  | inl e ↦ rw (e, update_live_state) h
  | inr (i, e) ↦
      rw (e, update_live_state)
        (counts-IsSound i (d.rts i).exp_times ((d.rts i).real_times + 1) d h)
]

pub check_need_start-IsSound :
    (sys : Sys) (d : Daemon) → IsSound d → Holds IsSound (check_need_start sys d)
unfolding check_need_start
check_need_start-IsSound sys d h =
    let off : (d1 : Daemon) → IsSound d1 → IsSound _ = (λ d1 k.
      same-IsSound d1 d1.calls (d1.start_timer && not (is_empty d1.to_start)) d1.term_timer
        d1.kill_timer d1.exit_flag d1.need_kill k) in
    elim (Option-cases (first_entry d.to_start)) [
      | inl e ↦ rw (e, check_need_start) (off d h)
      | inr (m, e) ↦
          rw (e, check_need_start)
            (Holds-bind IsSound IsSound (start sys m d) _ (start-IsSound sys m d h) off)
    ]

pub check_term_timeout-IsSound :
    (sys : Sys) (d : Daemon) → IsSound d → Holds IsSound (check_term_timeout sys d)
unfolding check_term_timeout
check_term_timeout-IsSound sys d h =
    let off : (d1 : Daemon) → IsSound d1 → IsSound _ = (λ d1 k.
      same-IsSound d1 d1.calls d1.start_timer (d1.term_timer && not (is_empty d1.exiting))
        d1.kill_timer d1.exit_flag d1.need_kill k) in
    elim (Option-cases (first_entry d.exiting)) [
      | inl e ↦ rw (e, check_term_timeout) (off d h)
      | inr (i, e) ↦
          rw (e, check_term_timeout)
            (Holds-bind IsSound IsSound (kill_prc sys i d) _
              (kill_prc-IsSound sys i d (first_busy rt_exiting d i refl e h) h) off)
    ]

-- `stop` of the manager of an entry, as the callbacks call it.
stop_of-IsSound :
    (sys : Sys) (i : ℕ) (d : Daemon)
    → IsSound d
    → Holds IsSound (elim (d.rts i).parent [ none ↦ ok d | some m ↦ stop sys m d ])
stop_of-IsSound sys i d h = elim (Option-cases (d.rts i).parent) [
  | inl e ↦ rw e h
  | inr (m, e) ↦ rw e (stop-IsSound sys m d h)
]

pub check_kill_timeout-IsSound :
    (sys : Sys) (d : Daemon) → IsSound d → Holds IsSound (check_kill_timeout sys d)
unfolding check_kill_timeout
check_kill_timeout-IsSound sys d h =
    let off : (d1 : Daemon) → IsSound d1 → IsSound _ = (λ d1 k.
      same-IsSound d1 d1.calls d1.start_timer d1.term_timer
        (d1.kill_timer && not (is_empty d1.killing)) d1.exit_flag d1.need_kill k) in
    elim (Option-cases (first_entry d.killing)) [
      | inl e ↦ rw (e, check_kill_timeout) (off d h)
      | inr (i, e) ↦
          rw (e, check_kill_timeout)
            (Holds-bind IsSound IsSound _ _ (stop_of-IsSound sys i d h) off)
    ]

pub bury_one-IsSound :
    (sys : Sys) (p : ℤ) (d : Daemon) → IsSound d → Holds IsSound (bury_one sys p d)
unfolding bury_one
bury_one-IsSound sys p d h =
    elim (Option-cases (
      or_else (find_obj d.rts d.killing p)
        (or_else (find_obj d.rts d.exiting p) (find_obj d.rts d.normal p)))) [
          | inl e ↦ rw (e, bury_one) h
          | inr (i, e) ↦ rw (e, bury_one) (stop_of-IsSound sys i d h)
        ]

pub bury_chld-IsSound :
    (sys : Sys) (ps : List ℤ) (d : Daemon) → IsSound d → Holds IsSound (bury_chld sys ps d)
unfolding bury_chld
bury_chld-IsSound sys [] d h = h
bury_chld-IsSound sys (p ∷ ps) d h =
    Holds-bind IsSound IsSound (bury_one sys p d) (λ d1. bury_chld sys ps d1)
      (bury_one-IsSound sys p d h) (bury_chld-IsSound sys ps)
