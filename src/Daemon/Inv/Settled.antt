-- ===== src/Daemon/Inv/Settled.antt =====
-- A manager without a process waits to be started exactly where it needs one.
use linux_drv.Prelude.{
  not, ◌||◌, Bool, Bool-cases, List, Option, Option-cases, [], arith, false, inl, inr, is_neg, none,
  refl, some, sym, true, ℕ, ℤ, ◌++◌, ◌||◌, ◌∙◌, ◌∷◌, ◌≡◌, ◌≢◌,
}
use mathlib.Core.Path.{subst}
use linux_drv.Daemon.Inv.Defs.{is_queued}
use linux_drv.Daemon.Inv.Moves.{at}
use linux_drv.Daemon.Inv.Ops.{Holds, Link-cases}
use linux_drv.Daemon.Manager.{add_in2_start, del_from2_start, have_card_inserted}
use linux_drv.Daemon.Runtime.{can_signal, clr_times, kill_prc, signal_kill, signal_term, term_prc}
use linux_drv.Daemon.State.{
  Card, Daemon, Mng, Run, Sys, SysCall, accept, exited, fault, is_empty, kill, ok, on_off_line,
  put_mng, put_rt, queued, unlinked, ◌>>=◌,
}
use linux_drv.Daemon.Timers.{
  check_live_each, check_live_state, find_obj, hello4_live, hello_each, is_live, update_live_state,
}

-- A static manager always needs a process, one of a slot while a card is inserted.
abbrev pub needs_process : Option Card → Bool
needs_process none = true
needs_process (some c) = have_card_inserted c

pub record IsSettled (d : Daemon) : Type 0 where
  pub waits :
      (m : ℕ) → (d.mngs m).child ≡ none → is_queued (d.mngs m).link ≡ needs_process (d.mngs m).card
  pub serving : d.exit_flag ≡ false

-- `P` of the value, where the daemon is still running, and no fault.
abbrev pub Fine {ℓ} : {A : Type ℓ} → (A → Type 0) → Run A → Type 0
Fine P (ok a) = P a
Fine P exited = Unit
Fine P fault = ⊥

pub Fine-bind {ℓ κ} :
    {A : Type ℓ} {B : Type κ} (P : A → Type 0) (Q : B → Type 0) (r : Run A) (f : A → Run B)
    → Fine P r
    → ((a : A) → P a → Fine Q (f a))
    → Fine Q (r >>= f)
Fine-bind P Q (ok a) f h k = k a h
Fine-bind P Q exited f h k = tt
Fine-bind P Q fault f h k = absurd h

pub Fine-map {ℓ} :
    {A : Type ℓ} (P Q : A → Type 0) (r : Run A) → Fine P r → ((a : A) → P a → Q a) → Fine Q r
Fine-map P Q (ok a) h k = k a h
Fine-map P Q exited h k = tt
Fine-map P Q fault h k = h

pub Fine-both {ℓ} :
    {A : Type ℓ} (P Q : A → Type 0) (r : Run A) → Holds P r → Fine Q r → Fine (λ a. P a × Q a) r
Fine-both P Q (ok a) p q = (p, q)
Fine-both P Q exited p q = tt
Fine-both P Q fault p q = q

-- The ioctls that tell the driver of a card do not fail.
abbrev pub CanSwitch : Sys → Type 0
CanSwitch sys = (cs : List SysCall) (s : ℕ) (t : ℤ) → is_neg (sys cs (on_off_line s t)) ≡ false

-- What the managers are, and whether the daemon is exiting.
abbrev pub Same : Daemon → Daemon → Type 0
Same d d1 = (d1.mngs ≡ d.mngs) × (d1.exit_flag ≡ d.exit_flag)

pub Same-IsSettled : (d d1 : Daemon) → Same d d1 → IsSettled d → IsSettled d1
Same-IsSettled d d1 (e, f) h = record {
  waits =
      subst (λ g. (m : ℕ) → (g m).child ≡ none → is_queued (g m).link ≡ needs_process (g m).card)
        (sym e) h.waits;
  serving = f ∙ h.serving;
}

-- Every manager but `m`.
abbrev pub OthersSettled : ℕ → Daemon → Type 0
OthersSettled m d =
    (n : ℕ)
    → n ≢ m
    → (d.mngs n).child ≡ none
    → is_queued (d.mngs n).link ≡ needs_process (d.mngs n).card

pub others : (m : ℕ) (d : Daemon) → IsSettled d → OthersSettled m d
others m d h n ne alone = h.waits n alone

-- One manager changes.
pub put-IsSettled :
    (m : ℕ) (x : Mng) (d d1 : Daemon)
    → d1.mngs ≡ at m x d.mngs
    → d1.exit_flag ≡ d.exit_flag
    → (x.child ≡ none → is_queued x.link ≡ needs_process x.card)
    → OthersSettled m d
    → d.exit_flag ≡ false
    → IsSettled d1
put-IsSettled m x d d1 e f here there serving = record {
  waits =
      subst (λ g. (n : ℕ) → (g n).child ≡ none → is_queued (g n).link ≡ needs_process (g n).card)
        (sym e) (λ n alone. ground (arith, here, there n));
  serving = f ∙ serving;
}

pub term_prc-Same : (sys : Sys) (i : ℕ) (d : Daemon) → Fine (Same d) (term_prc sys i d)
unfolding term_prc signal_term accept
term_prc-Same sys i d =
    elim (Bool-cases
      (not (can_signal (d.rts i).state) || is_neg (sys d.calls (kill (d.rts i).pid false)))) [
        | inl e ↦ rw e tt
        | inr e ↦ rw e (refl, refl)
      ]

pub kill_prc-Same : (sys : Sys) (i : ℕ) (d : Daemon) → Fine (Same d) (kill_prc sys i d)
unfolding kill_prc signal_kill accept
kill_prc-Same sys i d = elim (Bool-cases d.need_kill) [
  | inr skip ↦ rw skip (refl, refl)
  | inl go ↦
      elim (Bool-cases
        (not (can_signal (d.rts i).state) || is_neg (sys d.calls (kill (d.rts i).pid true)))) [
          | inl e ↦ rw (go, e) tt
          | inr e ↦ rw (go, e) (refl, refl)
        ]
]

pub Fine-Same-IsSettled :
    (d : Daemon) (r : Run Daemon) → Fine (Same d) r → IsSettled d → Fine IsSettled r
Fine-Same-IsSettled d (ok d1) k h = Same-IsSettled d d1 k h
Fine-Same-IsSettled d exited k h = tt
Fine-Same-IsSettled d fault k h = k

pub check_live_each-IsSettled :
    (sys : Sys) (is : List ℕ) (d : Daemon) → IsSettled d → Fine IsSettled (check_live_each sys is d)
unfolding check_live_each
check_live_each-IsSettled sys [] d h = h
check_live_each-IsSettled sys (i ∷ is) d h = elim (Bool-cases (is_live (d.rts i))) [
  | inl e ↦ rw e (
      check_live_each-IsSettled sys is _
        (Same-IsSettled d (put_rt i (clr_times (d.rts i)) d) (refl, refl) h))
  | inr e ↦ rw e (
      Fine-bind IsSettled IsSettled (kill_prc sys i d) (λ d1. check_live_each sys is d1)
        (Fine-Same-IsSettled d (kill_prc sys i d) (kill_prc-Same sys i d) h)
        (check_live_each-IsSettled sys is))
]

pub hello_each-Same : (is : List ℕ) (d : Daemon) → Same d (hello_each is d)
unfolding hello_each
hello_each-Same [] d = (refl, refl)
hello_each-Same (i ∷ is) d = hello_each-Same is _

-- A manager leaves the queue, or joins it.
pub dequeue-IsSettled :
    (m : ℕ) (d : Daemon)
    → is_queued (d.mngs m).link ≡ true
    → ((d.mngs m).child ≡ none → needs_process (d.mngs m).card ≡ false)
    → OthersSettled m d
    → d.exit_flag ≡ false
    → Fine IsSettled (del_from2_start m d)
unfolding del_from2_start
dequeue-IsSettled m d q here there f = elim (Link-cases (d.mngs m).link) [
  | inl e ↦ absurd (ground (arith, q, e))
  | inr (inl e) ↦ absurd (ground (arith, q, e))
  | inr (inr e) ↦
      rw (e, del_from2_start)
        (put-IsSettled m (record (d.mngs m) { link = unlinked }) d _ refl refl
          (λ k. ground (arith, here k)) there f)
]

pub enqueue-IsSettled :
    (m : ℕ) (d : Daemon)
    → is_queued (d.mngs m).link ≡ false
    → ((d.mngs m).child ≡ none → needs_process (d.mngs m).card ≡ true)
    → OthersSettled m d
    → d.exit_flag ≡ false
    → Fine IsSettled (add_in2_start m d)
unfolding add_in2_start
enqueue-IsSettled m d q here there f =
    let x = record (d.mngs m) { link = queued } in
    let joined =
      put-IsSettled m x d
        (record (put_mng m x d) {
          start_timer = is_empty d.to_start || d.start_timer;
          to_start = d.to_start ++ (m ∷ []);
        })
        refl refl (λ k. ground (arith, here k)) there f in
    elim (Link-cases (d.mngs m).link) [
      | inl e ↦ rw (e, add_in2_start) joined
      | inr (inl e) ↦ rw (e, add_in2_start) joined
      | inr (inr e) ↦ absurd (ground (arith, q, e))
    ]

pub hello4_live-Same : (d : Daemon) → Same d (hello4_live d)
unfolding hello4_live
hello4_live-Same d = hello_each-Same d.normal d

pub update_live_state-Same : (p : ℤ) (d : Daemon) → Same d (update_live_state p d).1
unfolding update_live_state
update_live_state-Same p d = elim (Option-cases (find_obj d.rts d.normal p)) [
  | inl e ↦ rw (e, update_live_state) (refl, refl)
  | inr (i, e) ↦ rw (e, update_live_state) (refl, refl)
]

pub check_live_state-IsSettled :
    (sys : Sys) (d : Daemon) → IsSettled d → Fine IsSettled (check_live_state sys d)
unfolding check_live_state
check_live_state-IsSettled sys d h = check_live_each-IsSettled sys d.normal d h
