-- ===== src/Daemon/Inv/Moves.antt =====
-- How an update of one entry or of one manager keeps the parts of the invariant.
use linux_drv.Prelude.{
  List, [], arith, false, if◌then◌else◌, is_neg, is_null, none, refl, some, sym, true, ℕ, ◌++◌, ◌<◌,
  ◌==◌, ◌∙◌, ◌∷◌, ◌≡◌, ◌≢◌,
}
use mathlib.Core.Path.{fun_ext, subst}
use linux_drv.Daemon.Inv.Defs.{
  HasPid, IsLinked, IsListed, IsQueued, IsSound, count, count-accept, count-append, count-remove,
  is_queued, list_of, same_state,
}
use linux_drv.Daemon.State.{
  Daemon, Mng, RtPrc, RtState, accept, pool_size, queued, remove, rt_exiting, rt_killing, rt_normal,
  rt_null,
}

abbrev pub at {ℓ} : {A : Type ℓ} → ℕ → A → (ℕ → A) → ℕ → A
at i x f = λ j. if j == i then x else f j

module _ (rts : ℕ → RtPrc) (mngs : ℕ → Mng) where
  -- An entry changes but for its manager and for being in use.
  pub keep-IsLinked :
      (i : ℕ) (r : RtPrc)
      → r.parent ≡ (rts i).parent
      → same_state rt_null r.state ≡ same_state rt_null (rts i).state
      → IsLinked rts mngs
      → IsLinked (at i r rts) mngs
  keep-IsLinked i r ep es h = record {
    down = λ m k e. ground (arith, h.down m k e);
    up = λ k m e. ground (arith, h.up k m);
    used = λ k. ground (arith, h.used k, h.used i);
    small = λ k e. ground (arith, h.small k);
  }

  pub keep_mng-IsLinked :
      (m : ℕ) (x : Mng) → x.child ≡ (mngs m).child → IsLinked rts mngs → IsLinked rts (at m x mngs)
  keep_mng-IsLinked m x ec h = record {
    down = λ n k e. ground (arith, h.down n k);
    up = λ k n e. ground (arith, h.up k n e);
    used = h.used;
    small = h.small;
  }

  pub attach-IsLinked :
      (i m : ℕ) (r : RtPrc) (x : Mng)
      → (rts i).parent ≡ none
      → (mngs m).child ≡ none
      → i < pool_size
      → r.parent ≡ some m
      → same_state rt_null r.state ≡ false
      → x.child ≡ some i
      → IsLinked rts mngs
      → IsLinked (at i r rts) (at m x mngs)
  attach-IsLinked i m r x free alone lt ep es ec h = record {
    down = λ n k e. ground (arith, h.down n k);
    up = λ k n e. ground (arith, h.up k n);
    used = λ k. ground (arith, h.used k);
    small = λ k e. ground (arith, h.small k);
  }

  pub detach-IsLinked :
      (i m : ℕ) (r : RtPrc) (x : Mng)
      → (rts i).parent ≡ some m
      → r.parent ≡ none
      → same_state rt_null r.state ≡ true
      → x.child ≡ none
      → IsLinked rts mngs
      → IsLinked (at i r rts) (at m x mngs)
  detach-IsLinked i m r x has ep es ec h = record {
    down = λ n k e. ground (arith, h.down n k, h.up i m has);
    up = λ k n e. ground (arith, h.up k n, h.up i m has);
    used = λ k. ground (arith, h.used k);
    small = λ k e. ground (arith, h.small k);
  }

-- A process number is kept, or given where an entry comes into use.
pub keep-HasPid :
    (rts : ℕ → RtPrc) (i : ℕ) (r : RtPrc)
    → (is_null r.parent ≡ false → is_neg r.pid ≡ false)
    → HasPid rts
    → HasPid (at i r rts)
keep-HasPid rts i r number h k e = ground (arith, h k)

module _ (mngs : ℕ → Mng) (q : List ℕ) where
  pub keep-IsQueued :
      (m : ℕ) (x : Mng)
      → is_queued x.link ≡ is_queued (mngs m).link
      → (is_queued x.link ≡ true → x.child ≡ none)
      → IsQueued mngs q
      → IsQueued (at m x mngs) q
  keep-IsQueued m x el ec h = record {
    once = λ n. ground (arith, h.once n, h.once m);
    idle = λ n e. ground (arith, h.idle n, ec);
  }

  pub enqueue-IsQueued :
      (m : ℕ) (x : Mng)
      → x.link ≡ queued
      → is_queued (mngs m).link ≡ false
      → x.child ≡ none
      → IsQueued mngs q
      → IsQueued (at m x mngs) (q ++ (m ∷ []))
  enqueue-IsQueued m x el new ec h = record {
    once = λ n. ground (arith, h.once n, h.once m, count-append n q (m ∷ []));
    idle = λ n e. ground (arith, h.idle n);
  }

  -- A manager leaves the queue, where the others are in order.
  pub dequeue-IsQueued :
      (m : ℕ) (x : Mng)
      → is_queued x.link ≡ false
      → ((n : ℕ) → n ≢ m → count n q ≡ (if is_queued (mngs n).link then 1 else 0))
      → ((n : ℕ) → n ≢ m → is_queued (mngs n).link ≡ true → (mngs n).child ≡ none)
      → IsQueued (at m x mngs) (remove m q)
  dequeue-IsQueued m x el once idle = record {
    once = λ n. ground (arith, once n, count-remove n m q);
    idle = λ n e. ground (arith, idle n);
  }

-- An entry goes to the list of its new state.
pub accept-IsListed :
    (d d' : Daemon) (s : RtState) (i : ℕ) (r : RtPrc)
    → IsListed d.rts (list_of d)
    → i < pool_size
    → r.state ≡ s
    → ((t : RtState) → list_of d' t ≡ list_of d t)
    → IsListed (at i r d.rts) (list_of (accept s i d'))
accept-IsListed d d' s i r h lt es same t j =
    ground (arith, h t j, count-accept s t i j d', same t, es)

pub at-at {ℓ} : {A : Type ℓ} (i : ℕ) (x y : A) (f : ℕ → A) → at i x (at i y f) ≡ at i x f
at-at i x y f = fun_ext (λ j. ground arith)

rts-accept : (s : RtState) (i : ℕ) (d : Daemon) → (accept s i d).rts ≡ d.rts
unfolding accept
rts-accept rt_null i d = refl
rts-accept rt_normal i d = refl
rts-accept rt_exiting i d = refl
rts-accept rt_killing i d = refl

pub mngs-accept : (s : RtState) (i : ℕ) (d : Daemon) → (accept s i d).mngs ≡ d.mngs
unfolding accept
mngs-accept rt_null i d = refl
mngs-accept rt_normal i d = refl
mngs-accept rt_exiting i d = refl
mngs-accept rt_killing i d = refl

to_start-accept : (s : RtState) (i : ℕ) (d : Daemon) → (accept s i d).to_start ≡ d.to_start
unfolding accept
to_start-accept rt_null i d = refl
to_start-accept rt_normal i d = refl
to_start-accept rt_exiting i d = refl
to_start-accept rt_killing i d = refl

-- The invariant after an entry of `d` became `r` and went to the list of its state.
pub accept-IsSound :
    (d d' : Daemon) (s : RtState) (i : ℕ) (r : RtPrc)
    → IsListed d.rts (list_of d)
    → i < pool_size
    → r.state ≡ s
    → ((t : RtState) → list_of d' t ≡ list_of d t)
    → d'.rts ≡ at i r d.rts
    → IsLinked (at i r d.rts) d'.mngs
    → HasPid (at i r d.rts)
    → IsQueued d'.mngs d'.to_start
    → IsSound (accept s i d')
accept-IsSound d d' s i r h lt es same er hl hp hq =
    let e : (accept s i d').rts ≡ at i r d.rts = rts-accept s i d' ∙ er in
    record {
      listed =
          subst (λ f. IsListed f (list_of (accept s i d'))) (sym e)
            (accept-IsListed d d' s i r h lt es same);
      linked =
          subst (λ f. IsLinked f (accept s i d').mngs) (sym e)
            (subst (λ g. IsLinked (at i r d.rts) g) (sym (mngs-accept s i d')) hl);
      has_pid = subst HasPid (sym e) hp;
      is_waiting =
          subst (λ g. IsQueued g (accept s i d').to_start) (sym (mngs-accept s i d'))
            (subst (λ q. IsQueued d'.mngs q) (sym (to_start-accept s i d')) hq);
    }
