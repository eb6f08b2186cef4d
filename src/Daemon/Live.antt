-- ===== src/Daemon/Live.antt =====
-- Which processes `sCheckLiveState` kills.
use linux_drv.Prelude.{
  not, ◌&&◌, ap, ◌∙◌, Bool, Bool-cases, List, [], arith, false, if◌then◌else◌, inl, inr, is_neg,
  leb, refl, true, ℕ, ℤ, ◌+◌, ◌==◌, ◌∷◌, ◌≡◌, ◌≤◌,
}
use linux_drv.Daemon.Inv.Defs.{IsSound, count, count-accept, list_of, same_state}
use linux_drv.Daemon.Inv.Moves.{at}
use linux_drv.Daemon.Runtime.{can_signal, clr_times, kill_prc, signal_kill}
use linux_drv.Daemon.State.{
  Daemon, RtState, rt_null, rt_exiting, RtPrc, Run, Sys, SysCall, accept, exited, fault, kill, ok,
  put_rt, rt_killing, rt_normal, ◌>>=◌,
}
use linux_drv.Daemon.Timers.{check_live_each, check_live_state, diff_spv_hello, is_live}

-- `P` of the value, which there is.
abbrev pub Done {ℓ} : {A : Type ℓ} → (A → Type 0) → Run A → Type 0
Done P (ok a) = P a
Done P exited = ⊥
Done P fault = ⊥

pub Done-bind {ℓ κ} :
    {A : Type ℓ} {B : Type κ} (P : A → Type 0) (Q : B → Type 0) (r : Run A) (f : A → Run B)
    → Done P r
    → ((a : A) → P a → Done Q (f a))
    → Done Q (r >>= f)
Done-bind P Q (ok a) f h k = k a h
Done-bind P Q exited f h k = absurd h
Done-bind P Q fault f h k = absurd h

-- Every signal can be sent.
abbrev pub CanKill : Sys → Type 0
CanKill sys = (cs : List SysCall) (p : ℤ) (b : Bool) → is_neg (sys cs (kill p b)) ≡ false

-- What the check makes of an entry: its counts start anew, and it is being killed where at least
-- `diff_spv_hello` of its hellos were not answered.
abbrev pub checked : RtPrc → RtPrc
checked r =
    if leb (r.real_times + diff_spv_hello) r.exp_times
    then clr_times (record r { state = rt_killing })
    else clr_times r

-- The entry is one of `is`, and it is not live.
abbrev pub is_hit : (ℕ → RtPrc) → List ℕ → ℕ → Bool
is_hit rts is j = not (count j is == 0) && not (is_live (rts j))

-- The log after SIGKILL to every entry of `is` that is not live, in the order of the list.
abbrev pub kills : (ℕ → RtPrc) → List ℕ → List SysCall → List SysCall
kills rts [] cs = cs
kills rts (i ∷ is) cs = kills rts is (if is_live (rts i) then cs else kill (rts i).pid true ∷ cs)

-- The entries of `is` were checked, the others are as they were; those that are not live got SIGKILL
-- and stand in the list of the killed ones and in no other, and every other entry is where it was.
pub record IsChecked (is : List ℕ) (d d1 : Daemon) : Type 0 where
  pub entries : (j : ℕ) → d1.rts j ≡ (if count j is == 0 then d.rts j else checked (d.rts j))
  pub calls : d1.calls ≡ kills d.rts is d.calls
  pub lists :
      (t : RtState) (j : ℕ)
      → count j (list_of d1 t) ≡ (
          if is_hit d.rts is j
          then (if same_state t rt_killing then 1 else 0)
          else count j (list_of d t))

kills-same :
    (f g : ℕ → RtPrc) (is : List ℕ) (cs : List SysCall)
    → ((j : ℕ) → 1 ≤ count j is → f j ≡ g j)
    → kills f is cs ≡ kills g is cs
kills-same f g [] cs h = refl
kills-same f g (i ∷ is) cs h =
    let here : f i ≡ g i = h i (ground arith) in
    rw here (
      kills-same f g is (if is_live (g i) then cs else kill (g i).pid true ∷ cs)
        (λ j le. h j (omega (arith, le))))

normal_can_signal : (s : RtState) → same_state rt_normal s ≡ true → can_signal s ≡ true
normal_can_signal rt_null e = absurd (ground (arith, e))
normal_can_signal rt_normal e = refl
normal_can_signal rt_exiting e = absurd (ground (arith, e))
normal_can_signal rt_killing e = absurd (ground (arith, e))

-- What checking one entry does.
record IsStep (i : ℕ) (d d1 : Daemon) : Type 0 where
  entry : (j : ℕ) → d1.rts j ≡ at i (checked (d.rts i)) d.rts j
  call : d1.calls ≡ (if is_live (d.rts i) then d.calls else kill (d.rts i).pid true ∷ d.calls)
  list :
      (t : RtState) (j : ℕ)
      → count j (list_of d1 t) ≡ (
          if i == j && not (is_live (d.rts i))
          then (if same_state t rt_killing then 1 else 0)
          else count j (list_of d t))

IsChecked-cons :
    (i : ℕ) (is : List ℕ) (d d1 d2 : Daemon)
    → ((j : ℕ) → count j (i ∷ is) ≤ 1)
    → IsStep i d d1
    → IsChecked is d1 d2
    → IsChecked (i ∷ is) d d2
IsChecked-cons i is d d1 d2 h first rest = record {
  entries = λ j. elim (Bool-cases (i == j)) [
    | inl e ↦ ground (arith, h j, first.entry j, rest.entries j, e)
    | inr e ↦ ground (arith, h j, first.entry j, rest.entries j, e)
  ];
  calls =
      rest.calls
      ∙ kills-same d1.rts d.rts is d1.calls (λ j le. ground (arith, h j, first.entry j, le))
      ∙ ap (kills d.rts is) first.call;
  lists = λ t j. elim (Bool-cases (i == j)) [
    | inl e ↦ ground (arith, h j, first.entry j, first.list t j, rest.lists t j, e)
    | inr e ↦ ground (arith, h j, first.entry j, first.list t j, rest.lists t j, e)
  ];
}

checked_live : (r : RtPrc) → is_live r ≡ true → checked r ≡ clr_times r
checked_live r e = ground (arith, e)

checked_dead :
    (r : RtPrc) → is_live r ≡ false → checked r ≡ clr_times (record r { state = rt_killing })
checked_dead r e = ground (arith, e)

pub Done-map {ℓ} :
    {A : Type ℓ} (P Q : A → Type 0) (r : Run A) → Done P r → ((a : A) → P a → Q a) → Done Q r
Done-map P Q (ok a) h k = k a h
Done-map P Q exited h k = h
Done-map P Q fault h k = h

live-IsStep :
    (i : ℕ) (d : Daemon) → is_live (d.rts i) ≡ true → IsStep i d (put_rt i (clr_times (d.rts i)) d)
live-IsStep i d e = record {
  entry = λ j. ground (arith, checked_live (d.rts i) e);
  call = rw e refl;
  list = λ t j. rw e (ground arith);
}

module _ (sys : Sys) (can : CanKill sys) where
  kill_prc_lem :
      (i : ℕ) (d : Daemon)
      → d.need_kill ≡ true
      → can_signal (d.rts i).state ≡ true
      → is_live (d.rts i) ≡ false
      → Done (λ d1. IsStep i d d1 × (d1.need_kill ≡ true)) (kill_prc sys i d)
  unfolding kill_prc signal_kill accept
  kill_prc_lem i d e ready dead =
      simp (e, ready, can d.calls (d.rts i).pid true)
        (
          record {
            entry = λ j. ground (arith, checked_dead (d.rts i) dead);
            call = rw dead refl;
            list = λ t j. rw dead (ground (arith, count-accept rt_killing t i j d));
          },
          refl,
        )

  check_live_each_lem :
      (is : List ℕ) (d : Daemon)
      → ((j : ℕ) → count j is ≤ 1)
      → ((j : ℕ) → 1 ≤ count j is → can_signal (d.rts j).state ≡ true)
      → d.need_kill ≡ true
      → Done (IsChecked is d) (check_live_each sys is d)
  unfolding check_live_each
  check_live_each_lem [] d h ready e = record {
    entries = λ j. refl;
    calls = refl;
    lists = λ t j. refl;
  }
  check_live_each_lem (i ∷ is) d h ready e =
      let less : (j : ℕ) → count j is ≤ 1 = (λ j. ground (arith, h j)) in
      let d0 = put_rt i (clr_times (d.rts i)) d in
      let still : (d1 : Daemon)
          → IsStep i d d1
          → (j : ℕ) → 1 ≤ count j is
          → can_signal (d1.rts j).state ≡ true =
        (λ d1 st j le. ground (arith, h j, ready j, st.entry j, le)) in
      elim (Bool-cases (is_live (d.rts i))) [
        | inl f ↦
            let first = live-IsStep i d f in
            rw f (
              Done-map (IsChecked is d0) (IsChecked (i ∷ is) d) (check_live_each sys is d0)
                (check_live_each_lem is d0 less (still d0 first) e)
                (λ d1 k. IsChecked-cons i is d d0 d1 h first k))
        | inr f ↦ rw f (
            Done-bind _ (IsChecked (i ∷ is) d) (kill_prc sys i d) (λ d1. check_live_each sys is d1)
              (kill_prc_lem i d e (ready i (ground arith)) f)
              (λ d1 (first, go).
                Done-map (IsChecked is d1) (IsChecked (i ∷ is) d) (check_live_each sys is d1)
                  (check_live_each_lem is d1 less (still d1 first) go)
                  (λ d2 k. IsChecked-cons i is d d1 d2 h first k)))
      ]

  -- While every signal can be sent and the daemon kills at all: the check ends, and afterwards every
  -- process in the list of the normal ones that left at least `diff_spv_hello` hellos of this round
  -- unanswered has got one SIGKILL, in the order of the list, and stands in the list of the killed ones
  -- and in no other, every other one in it is as it was with its counts at zero, and no other entry and
  -- no other place in a list has changed. No other call was made.
  pub check_live_state_lem :
      (d : Daemon)
      → IsSound d
      → d.need_kill ≡ true
      → Done (IsChecked d.normal d) (check_live_state sys d)
  unfolding check_live_state
  check_live_state_lem d h e =
      check_live_each_lem d.normal d (λ j. ground (arith, h.listed rt_normal j))
        (λ j le. normal_can_signal (d.rts j).state (ground (arith, h.listed rt_normal j, le))) e
