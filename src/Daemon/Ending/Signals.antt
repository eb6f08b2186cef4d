-- ===== src/Daemon/Ending/Signals.antt =====
-- The signals that the ending daemon sends.
use mathlib.Core.Path.{subst}
use linux_drv.Prelude.{
  ◌≤◌, Bool, Bool-cases, List, Option-cases, [], arith, false, inl, inr, is_neg, none, refl, some,
  suc, true, zero, ℕ, ℤ, ◌+◌, ◌<◌, ◌==◌, ◌∙◌, ◌∷◌, ◌≡◌, ◌⊎◌,
}
use linux_drv.Daemon.Inv.Defs.{is_queued}
use linux_drv.Daemon.Live.{CanKill, Done, Done-bind, Done-map}
use linux_drv.Daemon.Manager.{kill4_stop, term4_stop}
use linux_drv.Daemon.Runtime.{can_signal, signal_kill, signal_term}
use linux_drv.Daemon.State.{
  pool_size, Daemon, RtState, Run, Sys, SysCall, call, eqz, kill, master_int, put_rt, rt_exiting,
  rt_killing, state_int, waitpid,
}
use linux_drv.Daemon.Stop.{each_down}

-- A call was made.
abbrev pub WasMade : SysCall → List SysCall → Type 0
WasMade c [] = ⊥
WasMade c (x ∷ xs) = (x ≡ c) ⊎ WasMade c xs

-- A process that is waited for is reaped, and the two interrupts can be switched off.
abbrev pub CanReap : Sys → Type 0
CanReap sys = (cs : List SysCall) (p : ℤ) → eqz (sys cs (waitpid p)) p ≡ true

abbrev pub CanMask : Sys → Type 0
CanMask sys =
    (cs : List SysCall)
    → (is_neg (sys cs (state_int false)) ≡ false) × (is_neg (sys cs (master_int false)) ≡ false)

-- What `stop` needs of the pointers and the queue.
pub record IsStoppable (d : Daemon) : Type 0 where
  pub down : (m i : ℕ) → (d.mngs m).child ≡ some i → (d.rts i).parent ≡ some m
  pub idle : (m : ℕ) → is_queued (d.mngs m).link ≡ true → (d.mngs m).child ≡ none

-- The assertion of the signals holds of the processes of the managers below `n`.
abbrev pub IsReady : ℕ → Daemon → Type 0
IsReady n d = (m i : ℕ) → m < n → (d.mngs m).child ≡ some i → can_signal (d.rts i).state ≡ true

-- Only states and the log differ.
pub record IsAlike (d d1 : Daemon) : Type 0 where
  pub mngs : d1.mngs ≡ d.mngs
  pub rts : (i : ℕ) → ((d1.rts i).parent ≡ (d.rts i).parent) × ((d1.rts i).pid ≡ (d.rts i).pid)
  pub calls : (c : SysCall) → WasMade c d.calls → WasMade c d1.calls

pub Alike_refl : (d : Daemon) → IsAlike d d
Alike_refl d = record { mngs = refl; rts = λ i. (refl, refl); calls = λ c h. h }

pub Alike_trans : (d d1 d2 : Daemon) → IsAlike d d1 → IsAlike d1 d2 → IsAlike d d2
Alike_trans d d1 d2 a b = record {
  mngs = b.mngs ∙ a.mngs;
  rts = λ i. ((b.rts i).0 ∙ (a.rts i).0, (b.rts i).1 ∙ (a.rts i).1);
  calls = λ c h. b.calls c (a.calls c h);
}

-- The process of the manager got the signal.
abbrev pub WasSignalled : Bool → ℕ → Daemon → Daemon → Type 0
WasSignalled b m d d1 =
    (i : ℕ) → (d.mngs m).child ≡ some i → WasMade (kill (d.rts i).pid b) d1.calls

-- A signal was sent to an entry, whose state changed.
signalled :
    (b : Bool) (s : RtState) (m i : ℕ) (d : Daemon)
    → (d.mngs m).child ≡ some i
    → let d1 = put_rt i (record (d.rts i) { state = s }) (call (kill (d.rts i).pid b) d) in
      IsAlike d d1 × WasSignalled b m d d1
signalled b s m i d e = (
  record { mngs = refl; rts = λ j. (ground arith, ground arith); calls = λ c h. inr h },
  λ j f. inl (ground (arith, e, f)),
)

pub IsStoppable-Alike : (d d1 : Daemon) → IsAlike d d1 → IsStoppable d → IsStoppable d1
IsStoppable-Alike d d1 a h = record {
  down = λ m i e. (a.rts i).0 ∙ h.down m i (rw a.mngs at e);
  idle = λ m e. rw a.mngs (h.idle m (rw a.mngs at e));
}

module _ (sys : Sys) (can : CanKill sys) where
  -- An operation on a manager that sends its process a signal, and keeps what the loop over the
  -- managers needs.
  abbrev pub Signals : Bool → (ℕ → Daemon → Type 0) → (ℕ → Daemon → Run Daemon) → Type 0
  Signals b r f =
      (m : ℕ) (d : Daemon)
      → m < pool_size
      → r (suc m) d
      → Done (λ d1. (IsAlike d d1 × WasSignalled b m d d1) × r m d1) (f m d)

  -- SIGTERM keeps the assertion for all managers, and SIGKILL for those that are still to come.
  abbrev pub TermReady : ℕ → Daemon → Type 0
  TermReady m d = IsReady pool_size d

  abbrev pub KillReady : ℕ → Daemon → Type 0
  KillReady m d = IsReady m d × IsStoppable d

  pub term4_stop-Signals : Signals false TermReady (term4_stop sys)
  unfolding term4_stop signal_term
  term4_stop-Signals m d lt h = elim (Option-cases (d.mngs m).child) [
    | inl e ↦ rw (e, term4_stop) ((Alike_refl d, λ i f. absurd (ground (arith, e, f))), h)
    | inr (i, e) ↦
        let p = signalled false rt_exiting m i d e in
        rw (e, h m i lt e, can d.calls (d.rts i).pid false, term4_stop)
          ((p.0, λ j f. p.1 j (e ∙ f)), λ n j lt1 f. ground (arith, h n j lt1 f))
  ]

  pub kill4_stop-Signals : Signals true KillReady (kill4_stop sys)
  unfolding kill4_stop signal_kill
  kill4_stop-Signals m d lt (h, st) = elim (Option-cases (d.mngs m).child) [
    | inl e ↦
        rw (e, kill4_stop)
          (
            (Alike_refl d, λ i f. absurd (ground (arith, e, f))),
            (λ n j lt1. h n j (omega (arith, lt1)), st),
          )
    | inr (i, e) ↦
        let p = signalled true rt_killing m i d e in
        rw (e, h m i (omega arith) e, can d.calls (d.rts i).pid true, kill4_stop)
          (
            (p.0, λ j f. p.1 j (e ∙ f)),
            (
              λ n j lt1 f.
                  ground (arith, h n j (omega (arith, lt1)) f, st.down n j f, st.down m i e),
              IsStoppable-Alike d _ p.0 st,
            ),
          )
  ]

  -- A manager's process still has got its signal later, and earlier.
  pub signalled_later :
      (b : Bool) (m : ℕ) (d d1 d2 : Daemon)
      → WasSignalled b m d d1
      → IsAlike d1 d2
      → WasSignalled b m d d2
  signalled_later b m d d1 d2 w a i e = a.calls _ (w i e)

  pub signalled_before :
      (b : Bool) (m : ℕ) (d d1 d2 : Daemon)
      → IsAlike d d1
      → WasSignalled b m d1 d2
      → WasSignalled b m d d2
  signalled_before b m d d1 d2 a w i e = let w1 = w i (rw a.mngs e) in rw (a.rts i).1 at w1

  pub each_signalled :
      (b : Bool) (r : ℕ → Daemon → Type 0) (f : ℕ → Daemon → Run Daemon) (base n : ℕ) (d : Daemon)
      → Signals b r f
      → base + n ≤ pool_size
      → r (base + n) d
      → Done
          (λ d1. (IsAlike d d1 × ((k : ℕ) → k < n → WasSignalled b (base + k) d d1)) × r base d1)
          (each_down f base n d)
  unfolding each_down
  each_signalled b r f base zero d s le h =
      ((Alike_refl d, λ k lt. absurd (omega (arith, lt))), subst (λ m. r m d) (omega arith) h)
  each_signalled b r f base (suc n) d s le h =
      Done-bind (λ d1. (IsAlike d d1 × WasSignalled b (base + n) d d1) × r (base + n) d1) _
        (f (base + n) d) _ (s (base + n) d (omega (arith, le)) (subst (λ m. r m d) (omega arith) h))
        (λ d1 ((a, w), h1).
          Done-map _ _ (each_down f base n d1)
            (each_signalled b r f base n d1 s (omega (arith, le)) h1)
            (λ d2 ((a2, w2), h2). (
              (
                Alike_trans d d1 d2 a a2,
                λ k lt. elim (Bool-cases (k == n)) [
                  | inl e ↦
                      let k_n : k ≡ n = ground (arith, e) in
                      rw k_n (signalled_later b (base + n) d d1 d2 w a2)
                  | inr e ↦ signalled_before b (base + k) d d1 d2 a (w2 k (ground (arith, e)))
                ],
              ),
              h2,
            )))
