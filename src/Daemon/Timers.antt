-- ===== src/Daemon/Timers.antt =====
-- The callbacks of the timers and of the signals, and the daemon's end.
use linux_drv.Prelude.{
  Bool, List, Option, [], if◌then◌else◌, ltb, negsuc, none, not, pos, some, ℕ, ℤ, ◌&&◌, ◌+◌, ◌∷◌,
}
use linux_drv.Daemon.Manager.{stop}
use linux_drv.Daemon.Runtime.{clr_times, kill_prc}
use linux_drv.Daemon.State.{Daemon, RtPrc, Run, Sys, eqz, first_entry, is_empty, ok, put_rt, ◌>>=◌}

abbrev pub diff_spv_hello : ℕ
diff_spv_hello = 5

-- `isLive`
abbrev pub is_live : RtPrc → Bool
is_live r = ltb r.exp_times (r.real_times + diff_spv_hello)

-- `sCheckLiveState`: the loop over the list as it was at the start.
unfoldable pub check_live_each : Sys → List ℕ → Daemon → Run Daemon
check_live_each sys [] d = ok d
check_live_each sys (i ∷ is) d = do
  d1 ← if is_live (d.rts i) then ok (put_rt i (clr_times (d.rts i)) d) else kill_prc sys i d
  check_live_each sys is d1

unfoldable pub check_live_state : Sys → Daemon → Run Daemon
check_live_state sys d = check_live_each sys d.normal d

-- `sHello4Live`
unfoldable pub hello_each : List ℕ → Daemon → Daemon
hello_each [] d = d
hello_each (i ∷ is) d =
    hello_each is (put_rt i (record (d.rts i) { exp_times = (d.rts i).exp_times + 1 }) d)

unfoldable pub hello4_live : Daemon → Daemon
hello4_live d = hello_each d.normal d

-- `sCheckTermTimeout`
unfoldable pub check_term_timeout : Sys → Daemon → Run Daemon
check_term_timeout sys d = do
  d1 ← elim (first_entry d.exiting) [ none ↦ ok d | some i ↦ kill_prc sys i d ]
  ok (record d1 { term_timer = d1.term_timer && not (is_empty d1.exiting) })

-- `sCheckKillTimeout`
unfoldable pub check_kill_timeout : Sys → Daemon → Run Daemon
check_kill_timeout sys d = do
  d1 ← elim (first_entry d.killing) [
    | none ↦ ok d
    | some i ↦ elim (d.rts i).parent [ none ↦ ok d | some m ↦ stop sys m d ]
  ]
  ok (record d1 { kill_timer = d1.kill_timer && not (is_empty d1.killing) })

-- `sFindObj`
unfoldable pub find_obj : (ℕ → RtPrc) → List ℕ → ℤ → Option ℕ
find_obj rts [] pid = none
find_obj rts (i ∷ is) pid =
    let rest = find_obj rts is pid in if eqz (rts i).pid pid then some i else rest

abbrev pub or_else {ℓ} : {A : Type ℓ} → Option A → Option A → Option A
or_else none b = b
or_else (some a) b = some a

-- The body of the loop in `sBuryChld`, for the process that waitpid reaped.
unfoldable pub bury_one : Sys → ℤ → Daemon → Run Daemon
bury_one sys w_pid d =
    elim (or_else (find_obj d.rts d.killing w_pid)
      (or_else (find_obj d.rts d.exiting w_pid) (find_obj d.rts d.normal w_pid))) [
        | none ↦ ok d
        | some i ↦ elim (d.rts i).parent [ none ↦ ok d | some m ↦ stop sys m d ]
      ]

-- `sBuryChld`: the processes that waitpid reaps, one after the other.
unfoldable pub bury_chld : Sys → List ℤ → Daemon → Run Daemon
bury_chld sys [] d = ok d
bury_chld sys (p ∷ ps) d = bury_one sys p d >>= λ d1. bury_chld sys ps d1

-- `sUpdateLiveState`
unfoldable pub update_live_state : ℤ → Daemon → ℤ × Daemon
update_live_state pid d = elim (find_obj d.rts d.normal pid) [
  | none ↦ (negsuc 0, d)
  | some i ↦ (pos 0, put_rt i (record (d.rts i) { real_times = (d.rts i).real_times + 1 }) d)
]
