-- ===== src/Daemon/Tests.antt =====
-- The daemon at concrete inputs.
use linux_drv.Prelude.{
  Bool-cases, List, [], arith, false, inl, inr, is_null, length, ltb, pos, refl, some, sym, true, ℕ,
  ◌∙◌, ◌∷◌, ◌≡◌, ◌≤◌,
}
use linux_drv.Daemon.Events.{
  booted, Event, card_change, chld, daemon_start, dev_change, dynamic_start, hello_ack, hello_tick,
  kill_tick, live_tick, must, need_start_tick, new_card, new_daemon, new_mng, serve, static_start,
  step, term_tick,
}
use linux_drv.Daemon.Filter.{IsAt, IsOnline, reports, reports_lem, waiting_slot}
use linux_drv.Daemon.Inv.Boot.{static_start-HaveJoined}
use linux_drv.Daemon.Inv.Defs.{IsSound}
use linux_drv.Daemon.Inv.NoFault.{IsServing, serve-daemon_start-IsServing}
use linux_drv.Daemon.Inv.Ops.{Holds}
use linux_drv.Daemon.Inv.Reach.{serve-daemon_start-IsSound}
use linux_drv.Daemon.Inv.Settled.{Fine, needs_process}
use linux_drv.Daemon.Live.{Done, IsChecked, check_live_state_lem}
use linux_drv.Daemon.Manager.{
  add_in2_start, captured, check_need_start, del_from2_start, have_card_inserted, removed, start,
  sub_start,
}
use linux_drv.Daemon.Progress.{HasNames, all_started_lem, ticks}
use linux_drv.Daemon.Runtime.{capture, capture_started, kill_prc, rt_start, signal_kill}
use linux_drv.Daemon.Samples.{good_sys, served, served-IsSound, value}
use linux_drv.Daemon.State.{Card, Daemon, accept, max_static_prc_num, own, ◌>>=◌}
use linux_drv.Daemon.Timers.{
  check_live_each, check_live_state, find_obj, hello4_live, hello_each, update_live_state,
}

-- Processes are started, one does not answer and is killed and buried, a card comes.
abbrev day : List Event
day =
    need_start_tick
    ∷ need_start_tick
    ∷ hello_tick
    ∷ hello_ack (pos 100)
    ∷ hello_tick
    ∷ hello_tick
    ∷ hello_tick
    ∷ hello_tick
    ∷ live_tick
    ∷ chld (pos 101 ∷ [])
    ∷ dev_change (pos 0 ∷ pos 0 ∷ [])
    ∷ card_change (pos 1) (pos 0)
    ∷ kill_tick
    ∷ term_tick
    ∷ []

serve-daemon_start-IsSound_example :
    Holds IsSound (daemon_start good_sys true >>= serve good_sys day)
serve-daemon_start-IsSound_example = serve-daemon_start-IsSound good_sys true day

serve-daemon_start-IsServing_example :
    Fine IsServing (daemon_start good_sys true >>= serve good_sys day)
serve-daemon_start-IsServing_example =
    serve-daemon_start-IsServing good_sys (λ cs s t. refl) true day

abbrev started : Daemon
started = value (daemon_start good_sys true)

started-IsServing : IsServing started
unfolding daemon_start static_start add_in2_start dynamic_start must serve
started-IsServing = serve-daemon_start-IsServing good_sys (λ cs s t. refl) true []

new_card_lem : (m : ℕ) (c : Card) → (new_mng m).card ≡ some c → have_card_inserted c ≡ true → ⊥
new_card_lem m c e f = elim (Bool-cases (ltb m max_static_prc_num)) [
  | inl g ↦ ground (arith, e, g)
  | inr g ↦ ground (arith, e, f, g)
]

started-card : (m : ℕ) → (started.mngs m).card ≡ (new_mng m).card
unfolding daemon_start static_start add_in2_start dynamic_start must
started-card m =
    let j = static_start-HaveJoined 0 max_static_prc_num (booted true) (λ k ge. refl) in
    ground (arith, j.0 m)

started-HasNames : HasNames started
started-HasNames m c e f = absurd (new_card_lem m c (sym (started-card m) ∙ e) f)

room : length started.to_start ≤ length started.pool
unfolding daemon_start static_start add_in2_start dynamic_start must
room = ground arith

all_started_lem_example :
    Done
      (λ d1.
        (length d1.to_start ≡ 0)
        × ((m : ℕ) → needs_process (d1.mngs m).card ≡ true → is_null (d1.mngs m).child ≡ false))
      (serve good_sys (ticks (length started.to_start)) started)
all_started_lem_example =
    all_started_lem good_sys (λ cs m. refl) started (started-IsServing, started-HasNames, room)

reports_lem_example :
    Fine
      (IsAt 6
        (waiting_slot own (record (new_card 1) { card_kind_new = pos 0; cnt4_filter = 2 }))
        [])
      (reports good_sys 6 (pos 0 ∷ pos 0 ∷ pos 0 ∷ []) (new_daemon true))
    × Fine
        (IsOnline 6 (new_card 1) (pos 0) [])
        (reports good_sys 6 (pos 0 ∷ pos 0 ∷ pos 0 ∷ pos 0 ∷ []) (new_daemon true))
reports_lem_example =
    reports_lem good_sys 6 (pos 0) own [] (new_card 1) (new_daemon true) refl refl refl refl
      (refl, refl)

served-need_kill : (value served).need_kill ≡ true
unfolding daemon_start static_start add_in2_start dynamic_start must serve step check_need_start
    start sub_start captured capture capture_started rt_start accept removed del_from2_start
    hello4_live hello_each update_live_state find_obj
served-need_kill = refl

check_live_state_lem_example :
    Done (IsChecked (value served).normal (value served)) (check_live_state good_sys (value served))
check_live_state_lem_example =
    check_live_state_lem good_sys (λ cs p b. refl) (value served) served-IsSound served-need_kill

-- The second process, which has answered no hello, is being killed; the first is not.
check_live_state_test :
    Done
      (λ d. (d.normal ≡ 0 ∷ []) × (d.killing ≡ 1 ∷ []))
      (check_live_state good_sys (value served))
unfolding daemon_start static_start add_in2_start dynamic_start must serve step check_need_start
    start sub_start captured capture capture_started rt_start accept removed del_from2_start
    hello4_live hello_each update_live_state check_live_state check_live_each kill_prc signal_kill
    find_obj
check_live_state_test = (refl, refl)
