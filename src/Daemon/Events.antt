-- ===== src/Daemon/Events.antt =====
-- How the daemon starts, in `CProcessPdm::Start`, and what happens to it then: the callbacks of its
-- timers, signals and files, in any order. A timer's callback may come also where the timer is off.
use linux_drv.Prelude.{
  Bool, List, [], false, if◌then◌else◌, is_neg, ltb, negsuc, none, some, suc, true, zero, ℕ, ℤ, ◌-◌,
  ◌∷◌,
}
use linux_drv.Card.{etindev_null}
use linux_drv.Daemon.Cards.{check_each, handle_card_change}
use linux_drv.Daemon.Manager.{add_in2_start, check_need_start}
use linux_drv.Daemon.Runtime.{init_pool}
use linux_drv.Daemon.State.{
  Card, Daemon, Mng, RtPrc, Run, Sys, SysCall, call, exited, master_int, max_static_prc_num, ok,
  own, pool_size, rt_null, self_slot_id, state_int, ◌>>=◌,
}
use linux_drv.Daemon.Timers.{
  bury_chld, check_kill_timeout, check_live_state, check_term_timeout, hello4_live,
  update_live_state,
}

-- The objects as their constructors leave them.
abbrev pub new_rt : RtPrc
new_rt = record { state = rt_null; pid = negsuc 0; exp_times = 0; real_times = 0; parent = none }

abbrev pub new_card : ℕ → Card
new_card i = record {
  slot_no = i;
  card_kind = etindev_null;
  card_kind_new = etindev_null;
  cnt4_filter = 0;
}

abbrev pub new_mng : ℕ → Mng
new_mng m = record {
  child = none;
  link = own;
  card = if ltb m max_static_prc_num then none else some (new_card (m - max_static_prc_num));
}

abbrev pub new_daemon : Bool → Daemon
new_daemon need_kill = record {
  rts = λ i. new_rt;
  mngs = new_mng;
  pool = [];
  normal = [];
  exiting = [];
  killing = [];
  to_start = [];
  start_timer = false;
  term_timer = false;
  kill_timer = false;
  hello_timer = false;
  live_timer = false;
  card_timer = false;
  exit_flag = false;
  need_kill = need_kill;
  calls = [];
}

-- `CStaticPrcMngInfo::sStart`: the loop over `n` managers from `m` on.
unfoldable pub static_start : ℕ → ℕ → Daemon → Run Daemon
static_start m zero d = ok d
static_start m (suc n) d = add_in2_start m d >>= λ d1. static_start (suc m) n d1

-- An ioctl whose failure ends the daemon.
unfoldable pub must : Sys → SysCall → Daemon → Run Daemon
must sys c d = if is_neg (sys d.calls c) then exited else ok (call c d)

-- `CDynamicPrcMngInfo::sStart`
unfoldable pub dynamic_start : Sys → Daemon → Run Daemon
dynamic_start sys d = do
  d1 ← must sys self_slot_id (record d { exit_flag = false })
  d2 ← must sys (state_int true) d1
  d3 ← must sys (master_int true) d2
  ok (record d3 { card_timer = true })

-- The static data behind `CRtPrcInfo::sStart`. A timer that the source never starts is on from
-- `NewTimer` on, every other one from `StartTimer` on.
abbrev pub booted : Bool → Daemon
booted need_kill = record (new_daemon need_kill) {
  pool = init_pool 0 pool_size;
  hello_timer = true;
  live_timer = true;
}

-- `CProcessPdm::Start`, where that of its base class succeeds.
unfoldable pub daemon_start : Sys → Bool → Run Daemon
daemon_start sys need_kill = do
  d1 ← static_start 0 max_static_prc_num (booted need_kill)
  dynamic_start sys d1

pub data Event : Type 0 where
  need_start_tick live_tick hello_tick term_tick kill_tick : Event
  dev_change : List ℤ → Event
  card_change : ℤ → ℤ → Event
  chld : List ℤ → Event
  hello_ack : ℤ → Event

-- The callback of an event.
unfoldable pub step : Sys → Event → Daemon → Run Daemon
step sys need_start_tick d = check_need_start sys d
step sys live_tick d = check_live_state sys d
step sys hello_tick d = ok (hello4_live d)
step sys term_tick d = check_term_timeout sys d
step sys kill_tick d = check_kill_timeout sys d
step sys (dev_change ts) d = check_each sys 0 ts d
step sys (card_change s t) d = handle_card_change sys s t d >>= λ r. ok r.1
step sys (chld ps) d = bury_chld sys ps d
step sys (hello_ack p) d = ok (update_live_state p d).1

unfoldable pub serve : Sys → List Event → Daemon → Run Daemon
serve sys [] d = ok d
serve sys (e ∷ es) d = step sys e d >>= λ d1. serve sys es d1
