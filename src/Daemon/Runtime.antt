-- ===== src/Daemon/Runtime.antt =====
-- `CRtPrcInfo`: the processes and their states.
use linux_drv.Prelude.{
  Bool, List, [], false, if◌then◌else◌, is_neg, is_pos, negsuc, none, not, pos, some, suc, true,
  zero, ℕ, ℤ, ◌&&◌, ◌||◌, ◌∷◌,
}
use linux_drv.Daemon.State.{
  Daemon, RtPrc, RtState, Run, Sys, accept, call, echild, eqz, exited, fault, first_entry, fork,
  is_empty, kill, ok, put_mng, put_rt, rt_exiting, rt_killing, rt_normal, rt_null, waitpid, ◌>>=◌,
}

-- `clrTimes`
abbrev pub clr_times : RtPrc → RtPrc
clr_times r = record r { exp_times = 0; real_times = 0 }

-- `CRtPrcInfo::start` for the manager `m`: a process is forked for the entry `i`.
unfoldable pub rt_start : Sys → ℕ → ℕ → Daemon → ℤ × Daemon
rt_start sys m i d =
    let new_pid = sys d.calls (fork m) in
    let d1 = call (fork m) d in
    if is_neg new_pid
    then (new_pid, d1)
    else (pos 0, put_rt i (record (d.rts i) { state = rt_normal; pid = new_pid }) d1)

-- `CRtPrcInfo::stop`: the process is reaped, or was reaped before.
unfoldable pub rt_stop : Sys → ℕ → Daemon → ℤ × Daemon
rt_stop sys i d =
    let pid = (d.rts i).pid in
    let ret_pid = sys d.calls (waitpid pid) in
    let d1 = call (waitpid pid) d in
    let no_child = sys d1.calls (echild pid) in
    let d2 = call (echild pid) d1 in
    let stopped : RtPrc = record (d.rts i) { state = rt_null; pid = negsuc 0 } in
    if eqz ret_pid pid
    then (pos 0, put_rt i stopped d1)
    else if eqz ret_pid (negsuc 0) && is_pos no_child
    then (pos 0, put_rt i stopped d2)
    else (negsuc 0, d2)

-- `sCapture` behind `start`: the entry `i` is for the manager `m`.
unfoldable pub capture_started : ℕ → ℕ → ℤ × Daemon → ℤ × Daemon
capture_started m i (ret, d1) =
    let d2 = put_mng m (record (d1.mngs m) { child = some i }) d1 in
    let d3 = put_rt i (record (d2.rts i) { parent = some m }) d2 in
    if is_neg ret then (negsuc 0, d1) else (pos 0, accept rt_normal i d3)

-- `sCapture` for the manager `m`.
unfoldable pub capture : Sys → ℕ → Daemon → ℤ × Daemon
capture sys m d = elim (first_entry d.pool) [
  | none ↦ (negsuc 0, d)
  | some i ↦ capture_started m i (rt_start sys m i d)
]

-- `sRelease` behind `stop`.
unfoldable pub release_stopped : ℕ → ℤ × Daemon → Run (ℤ × Daemon)
release_stopped i (ret, d1) = if is_neg ret then ok (ret, d1) else elim (d1.rts i).parent [
  | none ↦ fault
  | some m ↦
      let d2 = put_mng m (record (d1.mngs m) { child = none }) d1 in
      let d3 = put_rt i (clr_times (record (d2.rts i) { parent = none })) d2 in
      ok (pos 0, accept rt_null i d3)
]

-- `sRelease`
unfoldable pub s_release : Sys → ℕ → Daemon → Run (ℤ × Daemon)
s_release sys i d = release_stopped i (rt_stop sys i d)

-- The assertion of `signalTerm` and of `signalKill`.
abbrev pub can_signal : RtState → Bool
can_signal rt_normal = true
can_signal rt_exiting = true
can_signal _ = false

-- `signalTerm` and `signalKill`; false is SIGTERM, true SIGKILL. A failed assertion ends the daemon, and
-- so does a failed kill.
unfoldable pub signal_term : Sys → ℕ → Daemon → Run Daemon
signal_term sys i d =
    let c = kill (d.rts i).pid false in
    let ret = sys d.calls c in
    let d1 = call c d in
    if not (can_signal (d.rts i).state) || is_neg ret
    then exited
    else ok (put_rt i (record (d.rts i) { state = rt_exiting }) d1)

unfoldable pub signal_kill : Sys → ℕ → Daemon → Run Daemon
signal_kill sys i d =
    let c = kill (d.rts i).pid true in
    let ret = sys d.calls c in
    let d1 = call c d in
    if not (can_signal (d.rts i).state) || is_neg ret
    then exited
    else ok (put_rt i (record (d.rts i) { state = rt_killing }) d1)

-- `sTerm` and `sKill`
unfoldable pub term_prc : Sys → ℕ → Daemon → Run Daemon
term_prc sys i d = do
  d1 ← signal_term sys i d
  let d2 = put_rt i (clr_times (d1.rts i)) d1
  ok (accept rt_exiting i (record d2 { term_timer = is_empty d2.exiting || d2.term_timer }))

unfoldable pub kill_prc : Sys → ℕ → Daemon → Run Daemon
kill_prc sys i d = if not d.need_kill then ok d else do
  d1 ← signal_kill sys i d
  let d2 = put_rt i (clr_times (d1.rts i)) d1
  ok (accept rt_killing i (record d2 { kill_timer = is_empty d2.killing || d2.kill_timer }))

-- `sInitPool`
abbrev pub init_pool : ℕ → ℕ → List ℕ
init_pool i zero = []
init_pool i (suc n) = i ∷ init_pool (suc i) n
