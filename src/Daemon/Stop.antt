-- ===== src/Daemon/Stop.antt =====
-- How the daemon ends: `CProcessPdm::Stop`. No callback comes between its steps, which all run in the
-- daemon's only thread.
use linux_drv.Prelude.{false, suc, true, zero, ℕ, ◌+◌}
use linux_drv.Card.{etin_slot_max}
use linux_drv.Daemon.Events.{must}
use linux_drv.Daemon.Manager.{kill4_stop, stop, term4_stop}
use linux_drv.Daemon.State.{Daemon, Run, Sys, master_int, max_static_prc_num, ok, state_int, ◌>>=◌}

-- A loop over the `n` managers from `base` on, from the last one down.
unfoldable pub each_down : (ℕ → Daemon → Run Daemon) → ℕ → ℕ → Daemon → Run Daemon
each_down f base zero d = ok d
each_down f base (suc n) d = f (base + n) d >>= λ d1. each_down f base n d1

-- `sTerm4Stop` and `sKill4Stop` of `CStaticPrcMngInfo` and of `CDynamicPrcMngInfo`.
unfoldable pub static_term4_stop : Sys → Daemon → Run Daemon
static_term4_stop sys d = each_down (term4_stop sys) 0 max_static_prc_num d

unfoldable pub dynamic_term4_stop : Sys → Daemon → Run Daemon
dynamic_term4_stop sys d = each_down (term4_stop sys) max_static_prc_num etin_slot_max d

unfoldable pub static_kill4_stop : Sys → Daemon → Run Daemon
static_kill4_stop sys d = each_down (kill4_stop sys) 0 max_static_prc_num d

unfoldable pub dynamic_kill4_stop : Sys → Daemon → Run Daemon
dynamic_kill4_stop sys d = each_down (kill4_stop sys) max_static_prc_num etin_slot_max d

-- `CStaticPrcMngInfo::sStop` and `CDynamicPrcMngInfo::sStop`
unfoldable pub static_stop : Sys → Daemon → Run Daemon
static_stop sys d = each_down (stop sys) 0 max_static_prc_num d

unfoldable pub dynamic_stop : Sys → Daemon → Run Daemon
dynamic_stop sys d = do
  d1 ← must sys (state_int false) (record d { exit_flag = true; card_timer = false })
  d2 ← must sys (master_int false) d1
  each_down (stop sys) max_static_prc_num etin_slot_max d2

-- `CPrcMngInfo::sStop` and `CRtPrcInfo::sStop`: their timers stop.
abbrev pub mng_stop : Daemon → Daemon
mng_stop d = record d { start_timer = false }

abbrev pub rt_prc_stop : Daemon → Daemon
rt_prc_stop d = record d {
  term_timer = false;
  kill_timer = false;
  hello_timer = false;
  live_timer = false;
}

-- `CProcessPdm::Stop`, up to that of its base class.
unfoldable pub daemon_stop : Sys → Daemon → Run Daemon
daemon_stop sys d = do
  d1 ← dynamic_term4_stop sys d >>= static_term4_stop sys
  d2 ← dynamic_kill4_stop sys d1 >>= static_kill4_stop sys
  d3 ← dynamic_stop sys d2 >>= static_stop sys
  ok (rt_prc_stop (mng_stop d3))
