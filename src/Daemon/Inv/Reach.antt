-- ===== src/Daemon/Inv/Reach.antt =====
-- What holds of every state that the daemon reaches.
use linux_drv.Prelude.{
  Bool, Bool-cases, List, [], arith, false, if◌then◌else◌, inl, inr, is_neg, leb, ltb, none, refl,
  suc, true, zero, ℕ, ◌&&◌, ◌+◌, ◌∷◌, ◌≡◌,
}
use linux_drv.Daemon.Events.{
  booted, Event, card_change, chld, daemon_start, dev_change, dynamic_start, hello_ack, hello_tick,
  kill_tick, live_tick, must, need_start_tick, new_daemon, serve, static_start, step, term_tick,
}
use linux_drv.Daemon.Inv.Cards.{check_each-IsSound, handle_card_change-IsSound}
use linux_drv.Daemon.Inv.Defs.{IsListed, IsSound, count, list_of}
use linux_drv.Daemon.Inv.Managers.{Kept, calls-IsSound}
use linux_drv.Daemon.Inv.Ops.{Holds, Holds-bind, Link-cases, add_in2_start-IsSound, same-IsSound}
use linux_drv.Daemon.Inv.Ticks.{
  Holds-both, bury_chld-IsSound, check_kill_timeout-IsSound, check_live_state-IsSound,
  check_need_start-IsSound, check_term_timeout-IsSound, hello4_live-IsSound,
  update_live_state-IsSound,
}
use linux_drv.Daemon.Manager.{add_in2_start}
use linux_drv.Daemon.Runtime.{init_pool}
use linux_drv.Daemon.State.{
  Daemon, Sys, SysCall, master_int, max_static_prc_num, ok, pool_size, rt_exiting, rt_killing,
  rt_normal, rt_null, self_slot_id, state_int, ◌>>=◌,
}

count-init_pool :
    (j i n : ℕ) → count j (init_pool i n) ≡ (if leb i j && ltb j (i + n) then 1 else 0)
count-init_pool j i zero = ground arith
count-init_pool j i (suc n) = ground (arith, count-init_pool j (suc i) n)

booted-IsListed :
    (need_kill : Bool) → IsListed (new_daemon need_kill).rts (list_of (booted need_kill))
booted-IsListed need_kill rt_null j = ground (arith, count-init_pool j 0 pool_size)
booted-IsListed need_kill rt_normal j = ground arith
booted-IsListed need_kill rt_exiting j = ground arith
booted-IsListed need_kill rt_killing j = ground arith

pub booted-IsSound : (need_kill : Bool) → IsSound (booted need_kill)
booted-IsSound need_kill = record {
  listed = booted-IsListed need_kill;
  linked = record {
    down = λ m i e. absurd (ground (arith, e));
    up = λ i m e. absurd (ground (arith, e));
    used = λ i. refl;
    small = λ i e. absurd (ground (arith, e));
  };
  has_pid = λ i e. absurd (ground (arith, e));
  is_waiting = record { once = λ m. refl; idle = λ m e. refl };
}

add_in2_start-alone :
    (m : ℕ) (d : Daemon)
    → ((k : ℕ) → (d.mngs k).child ≡ none)
    → Holds (λ d1. (k : ℕ) → (d1.mngs k).child ≡ none) (add_in2_start m d)
unfolding add_in2_start
add_in2_start-alone m d alone = elim (Link-cases (d.mngs m).link) [
  | inl e ↦ rw (e, add_in2_start) (λ k. ground (arith, alone k, alone m))
  | inr (inl e) ↦ rw (e, add_in2_start) (λ k. ground (arith, alone k, alone m))
  | inr (inr e) ↦ rw (e, add_in2_start) tt
]

static_start-IsSound :
    (m n : ℕ) (d : Daemon)
    → ((k : ℕ) → (d.mngs k).child ≡ none)
    → IsSound d
    → Holds IsSound (static_start m n d)
unfolding static_start
static_start-IsSound m zero d alone h = h
static_start-IsSound m (suc n) d alone h =
    Holds-bind (λ d1. IsSound d1 × ((k : ℕ) → (d1.mngs k).child ≡ none)) IsSound (add_in2_start m d)
      (λ d1. static_start (suc m) n d1)
      (Holds-both IsSound (λ d1. (k : ℕ) → (d1.mngs k).child ≡ none) (add_in2_start m d)
        (add_in2_start-IsSound m d (alone m) h) (add_in2_start-alone m d alone))
      (λ d1 k. static_start-IsSound (suc m) n d1 k.1 k.0)

must-IsSound : (sys : Sys) (c : SysCall) (d : Daemon) → IsSound d → Holds IsSound (must sys c d)
unfolding must
must-IsSound sys c d h = elim (Bool-cases (is_neg (sys d.calls c))) [
  | inl e ↦ rw e tt
  | inr e ↦ rw e (calls-IsSound d (c ∷ d.calls) h)
]

dynamic_start-IsSound : (sys : Sys) (d : Daemon) → IsSound d → Holds IsSound (dynamic_start sys d)
unfolding dynamic_start
dynamic_start-IsSound sys d h =
    let h1 = same-IsSound d d.calls d.start_timer d.term_timer d.kill_timer false d.need_kill h in
    Holds-bind IsSound IsSound _ _ (must-IsSound sys self_slot_id _ h1) (λ d1 k1.
      Holds-bind IsSound IsSound _ _ (must-IsSound sys (state_int true) d1 k1) (λ d2 k2.
        Holds-bind IsSound IsSound _ _ (must-IsSound sys (master_int true) d2 k2) (λ d3 k3. record {
          listed = k3.listed;
          linked = k3.linked;
          has_pid = k3.has_pid;
          is_waiting = k3.is_waiting;
        })))

pub daemon_start-IsSound :
    (sys : Sys) (need_kill : Bool) → Holds IsSound (daemon_start sys need_kill)
unfolding daemon_start
daemon_start-IsSound sys need_kill =
    Holds-bind IsSound IsSound _ (dynamic_start sys)
      (static_start-IsSound 0 max_static_prc_num _ (λ k. refl) (booted-IsSound need_kill))
      (dynamic_start-IsSound sys)

pub step-IsSound : (sys : Sys) (e : Event) (d : Daemon) → IsSound d → Holds IsSound (step sys e d)
unfolding step
step-IsSound sys need_start_tick d h = check_need_start-IsSound sys d h
step-IsSound sys live_tick d h = check_live_state-IsSound sys d h
step-IsSound sys hello_tick d h = hello4_live-IsSound d h
step-IsSound sys term_tick d h = check_term_timeout-IsSound sys d h
step-IsSound sys kill_tick d h = check_kill_timeout-IsSound sys d h
step-IsSound sys (dev_change ts) d h = check_each-IsSound sys 0 ts d h
step-IsSound sys (card_change s t) d h =
    Holds-bind Kept IsSound _ (λ r. ok r.1) (handle_card_change-IsSound sys s t d h) (λ a k. k)
step-IsSound sys (chld ps) d h = bury_chld-IsSound sys ps d h
step-IsSound sys (hello_ack p) d h = update_live_state-IsSound p d h

pub serve-IsSound :
    (sys : Sys) (es : List Event) (d : Daemon) → IsSound d → Holds IsSound (serve sys es d)
unfolding serve
serve-IsSound sys [] d h = h
serve-IsSound sys (e ∷ es) d h =
    Holds-bind IsSound IsSound (step sys e d) (serve sys es) (step-IsSound sys e d h)
      (serve-IsSound sys es)

-- Whatever the system calls return and in whatever order the callbacks come, where the daemon is
-- still running, every entry stands once in the list of its state and in no other, the pointers of
-- managers and processes point at each other, a process in use has a process number that is not
-- negative, and the waiting managers, each once, are those whose node is linked; none of them has a
-- process.
pub serve-daemon_start-IsSound :
    (sys : Sys) (need_kill : Bool) (es : List Event)
    → Holds IsSound (daemon_start sys need_kill >>= serve sys es)
serve-daemon_start-IsSound sys need_kill es =
    Holds-bind IsSound IsSound (daemon_start sys need_kill) (serve sys es)
      (daemon_start-IsSound sys need_kill) (serve-IsSound sys es)
