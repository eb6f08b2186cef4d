-- ===== src/Daemon/Inv/NoFault.antt =====
-- While the driver can be told of the cards, no callback runs into a fault.
use linux_drv.Prelude.{
  Bool, Bool-cases, List, Option-cases, [], arith, false, inl, inr, is_neg, none, refl, some, true,
  ℕ, ℤ, ◌∷◌,
}
use linux_drv.Daemon.Events.{
  booted, Event, card_change, chld, daemon_start, dev_change, dynamic_start, hello_ack, hello_tick,
  kill_tick, live_tick, must, need_start_tick, serve, static_start, step, term_tick,
}
use linux_drv.Daemon.Inv.Boot.{HaveJoined, static_start-HaveJoined}
use linux_drv.Daemon.Inv.CardsSettled.{check_each-IsSettled, handle_card_change-IsSettled}
use linux_drv.Daemon.Inv.Defs.{IsSound}
use linux_drv.Daemon.Inv.Managers.{count_first}
use linux_drv.Daemon.Inv.Reach.{daemon_start-IsSound, step-IsSound}
use linux_drv.Daemon.Inv.Restart.{SettledPair, start-IsSettled, stop-IsSettled}
use linux_drv.Daemon.Inv.Settled.{
  CanSwitch, Fine, Fine-bind, Fine-both, Fine-map, IsSettled, Fine-Same-IsSettled,
  check_live_state-IsSettled, hello4_live-Same, kill_prc-Same, Same-IsSettled,
  update_live_state-Same,
}
use linux_drv.Daemon.Inv.Ticks.{bury_one-IsSound}
use linux_drv.Daemon.Manager.{check_need_start, start, stop}
use linux_drv.Daemon.Runtime.{kill_prc}
use linux_drv.Daemon.State.{
  Daemon, Sys, SysCall, call, first_entry, master_int, max_static_prc_num, ok, self_slot_id,
  state_int, ◌>>=◌,
}
use linux_drv.Daemon.Timers.{
  bury_chld, bury_one, check_kill_timeout, check_term_timeout, find_obj, hello4_live, or_else,
  update_live_state,
}

-- What every callback keeps.
abbrev pub IsServing : Daemon → Type 0
IsServing d = IsSound d × IsSettled d

pub check_need_start-IsSettled :
    (sys : Sys) (d : Daemon) → IsSound d → IsSettled d → Fine IsSettled (check_need_start sys d)
unfolding check_need_start
check_need_start-IsSettled sys d h k = elim (Option-cases (first_entry d.to_start)) [
  | inl e ↦ rw (e, check_need_start) (Same-IsSettled d _ (refl, refl) k)
  | inr (m, e) ↦
      rw (e, check_need_start)
        (Fine-bind IsSettled IsSettled (start sys m d) _
          (start-IsSettled sys m d (ground (arith, count_first m d.to_start e, h.is_waiting.once m))
            k)
          (λ d1 j. Same-IsSettled d1 _ (refl, refl) j))
]

check_term_timeout-IsSettled :
    (sys : Sys) (d : Daemon) → IsSettled d → Fine IsSettled (check_term_timeout sys d)
unfolding check_term_timeout
check_term_timeout-IsSettled sys d k = elim (Option-cases (first_entry d.exiting)) [
  | inl e ↦ rw (e, check_term_timeout) (Same-IsSettled d _ (refl, refl) k)
  | inr (i, e) ↦
      rw (e, check_term_timeout)
        (Fine-bind IsSettled IsSettled (kill_prc sys i d) _
          (Fine-Same-IsSettled d (kill_prc sys i d) (kill_prc-Same sys i d) k)
          (λ d1 j. Same-IsSettled d1 _ (refl, refl) j))
]

-- The callbacks that stop the manager of an entry.
module _ (sys : Sys) (can : CanSwitch sys) where
  stop_of-IsSettled :
      (i : ℕ) (d : Daemon)
      → IsSound d
      → IsSettled d
      → Fine IsSettled (elim (d.rts i).parent [ none ↦ ok d | some m ↦ stop sys m d ])
  stop_of-IsSettled i d h k = elim (Option-cases (d.rts i).parent) [
    | inl e ↦ rw e k
    | inr (m, e) ↦ rw e (stop-IsSettled sys m d can h k)
  ]

  check_kill_timeout-IsSettled :
      (d : Daemon) → IsSound d → IsSettled d → Fine IsSettled (check_kill_timeout sys d)
  unfolding check_kill_timeout
  check_kill_timeout-IsSettled d h k = elim (Option-cases (first_entry d.killing)) [
    | inl e ↦ rw (e, check_kill_timeout) (Same-IsSettled d _ (refl, refl) k)
    | inr (i, e) ↦
        rw (e, check_kill_timeout)
          (Fine-bind IsSettled IsSettled _ _ (stop_of-IsSettled i d h k)
            (λ d1 j. Same-IsSettled d1 _ (refl, refl) j))
  ]

  bury_one-IsSettled :
      (p : ℤ) (d : Daemon) → IsSound d → IsSettled d → Fine IsSettled (bury_one sys p d)
  unfolding bury_one
  bury_one-IsSettled p d h k =
      elim (Option-cases (
        or_else (find_obj d.rts d.killing p)
          (or_else (find_obj d.rts d.exiting p) (find_obj d.rts d.normal p)))) [
            | inl e ↦ rw (e, bury_one) k
            | inr (i, e) ↦ rw (e, bury_one) (stop_of-IsSettled i d h k)
          ]

  bury_chld-IsSettled :
      (ps : List ℤ) (d : Daemon) → IsSound d → IsSettled d → Fine IsSettled (bury_chld sys ps d)
  unfolding bury_chld
  bury_chld-IsSettled [] d h k = k
  bury_chld-IsSettled (p ∷ ps) d h k =
      Fine-bind IsServing IsSettled (bury_one sys p d) (λ d1. bury_chld sys ps d1)
        (Fine-both IsSound IsSettled (bury_one sys p d) (bury_one-IsSound sys p d h)
          (bury_one-IsSettled p d h k))
        (λ d1 j. bury_chld-IsSettled ps d1 j.0 j.1)

  step-IsSettled :
      (e : Event) (d : Daemon) → IsSound d → IsSettled d → Fine IsSettled (step sys e d)
  unfolding step
  step-IsSettled need_start_tick d h k = check_need_start-IsSettled sys d h k
  step-IsSettled live_tick d h k = check_live_state-IsSettled sys d k
  step-IsSettled hello_tick d h k = Same-IsSettled d (hello4_live d) (hello4_live-Same d) k
  step-IsSettled term_tick d h k = check_term_timeout-IsSettled sys d k
  step-IsSettled kill_tick d h k = check_kill_timeout-IsSettled d h k
  step-IsSettled (dev_change ts) d h k = check_each-IsSettled sys 0 ts d k
  step-IsSettled (card_change s t) d h k =
      Fine-bind SettledPair IsSettled _ (λ r. ok r.1) (handle_card_change-IsSettled sys s t d k)
        (λ a j. j)
  step-IsSettled (chld ps) d h k = bury_chld-IsSettled ps d h k
  step-IsSettled (hello_ack p) d h k =
      Same-IsSettled d (update_live_state p d).1 (update_live_state-Same p d) k

  serve-IsServing : (es : List Event) (d : Daemon) → IsServing d → Fine IsServing (serve sys es d)
  unfolding serve
  serve-IsServing [] d h = h
  serve-IsServing (e ∷ es) d h =
      Fine-bind IsServing IsServing (step sys e d) (λ d1. serve sys es d1)
        (Fine-both IsSound IsSettled (step sys e d) (step-IsSound sys e d h.0)
          (step-IsSettled e d h.0 h.1))
        (serve-IsServing es)

must-IsSettled :
    (sys : Sys) (c : SysCall) (d : Daemon) → IsSettled d → Fine IsSettled (must sys c d)
unfolding must
must-IsSettled sys c d k = elim (Bool-cases (is_neg (sys d.calls c))) [
  | inl e ↦ rw e tt
  | inr e ↦ rw e (Same-IsSettled d (call c d) (refl, refl) k)
]

dynamic_start-IsSettled :
    (sys : Sys) (d : Daemon)
    → IsSettled (record d { exit_flag = false })
    → Fine IsSettled (dynamic_start sys d)
unfolding dynamic_start
dynamic_start-IsSettled sys d k =
    Fine-bind IsSettled IsSettled _ _ (must-IsSettled sys self_slot_id _ k) (λ d1 k1.
      Fine-bind IsSettled IsSettled _ _ (must-IsSettled sys (state_int true) d1 k1) (λ d2 k2.
        Fine-bind IsSettled IsSettled _ _ (must-IsSettled sys (master_int true) d2 k2)
          (λ d3 k3. Same-IsSettled d3 _ (refl, refl) k3)))

static_started :
    (need_kill : Bool) → Fine IsSettled (static_start 0 max_static_prc_num (booted need_kill))
static_started need_kill =
    let d = booted need_kill in
    Fine-map (HaveJoined 0 max_static_prc_num d) IsSettled _
      (static_start-HaveJoined 0 max_static_prc_num d (λ k ge. refl))
      (λ d1 j. record { waits = λ m e. ground (arith, j.0 m); serving = j.1 })

-- While the ioctls that tell the driver of a card do not fail: whatever the other system calls
-- return and in whatever order the callbacks come, no callback runs into a null pointer or links a
-- node twice, the invariant of the entries and lists holds, and a manager without a process waits to
-- be started exactly when it needs one, which a static manager always does and a slot's manager does
-- while a card is inserted.
pub serve-daemon_start-IsServing :
    (sys : Sys)
    → CanSwitch sys
    → (need_kill : Bool) (es : List Event)
    → Fine IsServing (daemon_start sys need_kill >>= serve sys es)
unfolding daemon_start
serve-daemon_start-IsServing sys can need_kill es =
    Fine-bind IsServing IsServing (daemon_start sys need_kill) (serve sys es)
      (Fine-both IsSound IsSettled (daemon_start sys need_kill) (daemon_start-IsSound sys need_kill)
        (Fine-bind IsSettled IsSettled _ (dynamic_start sys) (static_started need_kill)
          (λ d k. dynamic_start-IsSettled sys d (record { waits = k.waits; serving = refl }))))
      (serve-IsServing sys can es)
