-- ===== src/Daemon/Inv/Ops.antt =====
-- Every operation keeps the invariant.
use linux_drv.Prelude.{
  not, ◌||◌, ==_self, Bool, Bool-cases, List, [], ap, arith, false, if◌then◌else◌, inl, inr, is_neg,
  is_null, is_pos, negsuc, none, pos, refl, some, true, ℕ, ℤ, ◌&&◌, ◌++◌, ◌||◌, ◌∙◌, ◌∷◌, ◌≡◌, ◌≢◌,
  ◌⊎◌,
}
use mathlib.Core.Path.{fun_ext}
use linux_drv.Daemon.Inv.Defs.{HasPid, IsLinked, IsListed, IsSound, count, is_queued, list_of}
use linux_drv.Daemon.Inv.Moves.{
  accept-IsSound, at, dequeue-IsQueued, detach-IsLinked, enqueue-IsQueued, keep-HasPid,
  keep-IsLinked, keep-IsQueued, keep_mng-IsLinked, mngs-accept,
}
use linux_drv.Daemon.Manager.{add_in2_start, del_from2_start}
use linux_drv.Daemon.Runtime.{
  can_signal, clr_times, kill_prc, release_stopped, rt_stop, s_release, signal_kill, signal_term,
  term_prc,
}
use linux_drv.Daemon.State.{
  Daemon, Link, Run, Sys, SysCall, echild, eqz, exited, fault, is_empty, kill, ok, own, put_rt,
  queued, rt_exiting, rt_killing, rt_null, unlinked, waitpid, ◌>>=◌,
}

-- `P` of the value, where there is one.
abbrev pub Holds {ℓ} : {A : Type ℓ} → (A → Type 0) → Run A → Type 0
Holds P (ok a) = P a
Holds P exited = Unit
Holds P fault = Unit

pub Holds-bind {ℓ κ} :
    {A : Type ℓ} {B : Type κ} (P : A → Type 0) (Q : B → Type 0) (r : Run A) (f : A → Run B)
    → Holds P r
    → ((a : A) → P a → Holds Q (f a))
    → Holds Q (r >>= f)
Holds-bind P Q (ok a) f h k = k a h
Holds-bind P Q exited f h k = tt
Holds-bind P Q fault f h k = tt

-- Fields that the invariant does not read.
pub same-IsSound :
    (d : Daemon) (cs : List SysCall) (a b c e k : Bool)
    → IsSound d
    → IsSound (record d {
      calls = cs;
      start_timer = a;
      term_timer = b;
      kill_timer = c;
      exit_flag = e;
      need_kill = k;
    })
same-IsSound d cs a b c e k h = record {
  listed = h.listed;
  linked = h.linked;
  has_pid = h.has_pid;
  is_waiting = h.is_waiting;
}

pub term_prc-IsSound :
    (sys : Sys) (i : ℕ) (d : Daemon)
    → is_null (d.rts i).parent ≡ false
    → IsSound d
    → Holds IsSound (term_prc sys i d)
unfolding term_prc signal_term
term_prc-IsSound sys i d busy h =
    elim (Bool-cases
      (not (can_signal (d.rts i).state) || is_neg (sys d.calls (kill (d.rts i).pid false)))) [
        | inl e ↦ rw e tt
        | inr e ↦
            let r = clr_times (record (d.rts i) { state = rt_exiting }) in
            rw e (
              accept-IsSound d _ rt_exiting i r h.listed (h.linked.small i busy) refl (λ t. refl)
                (fun_ext (λ j. ground arith))
                (keep-IsLinked d.rts d.mngs i r refl (ground (arith, h.linked.used i, busy))
                  h.linked)
                (keep-HasPid d.rts i r (h.has_pid i) h.has_pid) h.is_waiting)
      ]

pub kill_prc-IsSound :
    (sys : Sys) (i : ℕ) (d : Daemon)
    → is_null (d.rts i).parent ≡ false
    → IsSound d
    → Holds IsSound (kill_prc sys i d)
unfolding kill_prc signal_kill
kill_prc-IsSound sys i d busy h = elim (Bool-cases d.need_kill) [
  | inr skip ↦
      rw skip (same-IsSound d d.calls d.start_timer d.term_timer d.kill_timer d.exit_flag false h)
  | inl go ↦
      elim (Bool-cases
        (not (can_signal (d.rts i).state) || is_neg (sys d.calls (kill (d.rts i).pid true)))) [
          | inl e ↦ rw (go, e) tt
          | inr e ↦
              let r = clr_times (record (d.rts i) { state = rt_killing }) in
              rw (go, e)
                (accept-IsSound d _ rt_killing i r h.listed (h.linked.small i busy) refl (λ t. refl)
                  (fun_ext (λ j. ground arith))
                  (keep-IsLinked d.rts d.mngs i r refl (ground (arith, h.linked.used i, busy))
                    h.linked)
                  (keep-HasPid d.rts i r (h.has_pid i) h.has_pid) h.is_waiting)
        ]
]

-- `rt_stop` changes the entry `i` alone: it is null afterwards, or as it was.
pub rt_stop_cases {κ} :
    (P : ℤ × Daemon → Type κ) (sys : Sys) (i : ℕ) (d : Daemon)
    → ((cs : List SysCall) → P (negsuc 0, record d { calls = cs }))
    → ((cs : List SysCall)
        → P (
          pos 0,
          put_rt i (record (d.rts i) { state = rt_null; pid = negsuc 0 }) (record d { calls = cs }),
        ))
    → P (rt_stop sys i d)
unfolding rt_stop
rt_stop_cases P sys i d bad good =
    let n = (d.rts i).pid in
    let ret_pid = sys d.calls (waitpid n) in
    let gone = is_pos (sys (waitpid n ∷ d.calls) (echild n)) in
    elim (Bool-cases (eqz ret_pid n)) [
      | inl e ↦ rw e (good (waitpid n ∷ d.calls))
      | inr e ↦ elim (Bool-cases (eqz ret_pid (negsuc 0) && gone)) [
        | inl f ↦ rw (e, f) (good (echild n ∷ waitpid n ∷ d.calls))
        | inr f ↦ rw (e, f) (bad (echild n ∷ waitpid n ∷ d.calls))
      ]
    ]

abbrev pub Released : ℕ → ℤ × Daemon → Type 0
Released m (r, d) = IsSound d × ((is_neg r ≡ true) ⊎ ((d.mngs m).child ≡ none))

stopped-Released :
    (i m : ℕ) (d : Daemon) (cs : List SysCall)
    → (d.rts i).parent ≡ some m
    → IsSound d
    → Holds (Released m) (
        release_stopped i (
          pos 0,
          put_rt i (record (d.rts i) { state = rt_null; pid = negsuc 0 }) (record d { calls = cs }),
        ))
unfolding release_stopped
stopped-Released i m d cs has h =
    let r = clr_times (record (d.rts i) { state = rt_null; pid = negsuc 0; parent = none }) in
    let x = record (d.mngs m) { child = none } in
    rw (==_self i, has)
      (
        accept-IsSound d _ rt_null i r h.listed (h.linked.small i (ground (arith, has))) refl
            (λ t. refl) (fun_ext (λ j. ground arith))
            (detach-IsLinked d.rts d.mngs i m r x has refl refl refl h.linked)
            (keep-HasPid d.rts i r (λ e. ground (arith, e)) h.has_pid)
            (keep-IsQueued d.mngs d.to_start m x refl (λ e. refl) h.is_waiting),
        inr (ap (λ f. (f m).child) (mngs-accept rt_null i _) ∙ ground arith),
      )

pub s_release-IsSound :
    (sys : Sys) (i m : ℕ) (d : Daemon)
    → (d.rts i).parent ≡ some m
    → IsSound d
    → Holds (Released m) (s_release sys i d)
unfolding s_release release_stopped
s_release-IsSound sys i m d has h =
    rt_stop_cases (λ p. Holds (Released m) (release_stopped i p)) sys i d
      (λ cs. (
        same-IsSound d cs d.start_timer d.term_timer d.kill_timer d.exit_flag d.need_kill h,
        inl refl,
      ))
      (λ cs. stopped-Released i m d cs has h)

pub Link-cases : (k : Link) → (k ≡ own) ⊎ ((k ≡ unlinked) ⊎ (k ≡ queued))
Link-cases own = inl refl
Link-cases unlinked = inr (inl refl)
Link-cases queued = inr (inr refl)

enqueued :
    (m : ℕ) (d : Daemon)
    → is_queued (d.mngs m).link ≡ false
    → (d.mngs m).child ≡ none
    → IsSound d
    → IsSound (record d {
      start_timer = is_empty d.to_start || d.start_timer;
      mngs = at m (record (d.mngs m) { link = queued }) d.mngs;
      to_start = d.to_start ++ (m ∷ []);
    })
enqueued m d new alone h =
    let x = record (d.mngs m) { link = queued } in
    record {
      listed = h.listed;
      linked = keep_mng-IsLinked d.rts d.mngs m x refl h.linked;
      has_pid = h.has_pid;
      is_waiting = enqueue-IsQueued d.mngs d.to_start m x refl new alone h.is_waiting;
    }

pub add_in2_start-IsSound :
    (m : ℕ) (d : Daemon) → (d.mngs m).child ≡ none → IsSound d → Holds IsSound (add_in2_start m d)
unfolding add_in2_start
add_in2_start-IsSound m d alone h = elim (Link-cases (d.mngs m).link) [
  | inl e ↦ rw (e, add_in2_start) (enqueued m d (ground (arith, e)) alone h)
  | inr (inl e) ↦ rw (e, add_in2_start) (enqueued m d (ground (arith, e)) alone h)
  | inr (inr e) ↦ rw (e, add_in2_start) tt
]

-- The invariant, but for the manager `m` that has a process and may wait all the same.
pub record IsSoundBut (m : ℕ) (d : Daemon) : Type 0 where
  pub listed : IsListed d.rts (list_of d)
  pub linked : IsLinked d.rts d.mngs
  pub has_pid : HasPid d.rts
  pub once : (n : ℕ) → count n d.to_start ≡ (if is_queued (d.mngs n).link then 1 else 0)
  pub idle : (n : ℕ) → n ≢ m → is_queued (d.mngs n).link ≡ true → (d.mngs n).child ≡ none

pub IsSound-IsSoundBut : (m : ℕ) (d : Daemon) → IsSound d → IsSoundBut m d
IsSound-IsSoundBut m d h = record {
  listed = h.listed;
  linked = h.linked;
  has_pid = h.has_pid;
  once = h.is_waiting.once;
  idle = λ n ne. h.is_waiting.idle n;
}

pub del_from2_start-IsSound :
    (m : ℕ) (d : Daemon) → IsSoundBut m d → Holds IsSound (del_from2_start m d)
unfolding del_from2_start
del_from2_start-IsSound m d h =
    let x = record (d.mngs m) { link = unlinked } in
    let linked = keep_mng-IsLinked d.rts d.mngs m x refl h.linked in
    elim (Link-cases (d.mngs m).link) [
      | inl e ↦
          rw (e, del_from2_start)
            (record {
              listed = h.listed;
              linked = linked;
              has_pid = h.has_pid;
              is_waiting = record {
                once = λ n. ground (arith, h.once n, h.once m, e);
                idle = λ n q. ground (arith, h.idle n, e);
              };
            })
      | inr (inl e) ↦ rw (e, del_from2_start) tt
      | inr (inr e) ↦
          rw (e, del_from2_start)
            (record {
              listed = h.listed;
              linked = linked;
              has_pid = h.has_pid;
              is_waiting = dequeue-IsQueued d.mngs d.to_start m x refl (λ n ne. h.once n) h.idle;
            })
    ]
