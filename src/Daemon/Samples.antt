-- ===== src/Daemon/Samples.antt =====
-- Daemons and systems for the tests.
use linux_drv.Prelude.{[], pos, true, ◌+◌, ◌∷◌}
use linux_drv.Daemon.Events.{booted, daemon_start, hello_ack, hello_tick, need_start_tick, serve}
use linux_drv.Daemon.Inv.Defs.{IsSound}
use linux_drv.Daemon.Inv.Ops.{Holds}
use linux_drv.Daemon.Inv.Reach.{booted-IsSound, serve-daemon_start-IsSound}
use linux_drv.Daemon.State.{
  Daemon, Run, Sys, echild, exited, fault, fork, kill, master_int, ok, on_off_line, self_slot_id,
  state_int, waitpid, ◌>>=◌,
}

-- Every call succeeds; the process of the manager `m` has the number 100 + m.
abbrev pub good_sys : Sys
good_sys cs (fork m) = pos (100 + m)
good_sys cs (waitpid p) = p
good_sys cs (echild p) = pos 0
good_sys cs (kill p b) = pos 0
good_sys cs (on_off_line s t) = pos 0
good_sys cs self_slot_id = pos 0
good_sys cs (state_int b) = pos 0
good_sys cs (master_int b) = pos 0

abbrev pub value : Run Daemon → Daemon
value (ok d) = d
value exited = booted true
value fault = booted true

-- A daemon with two processes, five hellos later; the first process has answered one of them.
abbrev pub served : Run Daemon
served =
    daemon_start good_sys true
    >>= serve good_sys (
        need_start_tick
        ∷ need_start_tick
        ∷ hello_tick
        ∷ hello_ack (pos 100)
        ∷ hello_tick
        ∷ hello_tick
        ∷ hello_tick
        ∷ hello_tick
        ∷ [])

pub value-IsSound : (r : Run Daemon) → Holds IsSound r → IsSound (value r)
value-IsSound (ok d) h = h
value-IsSound exited h = booted-IsSound true
value-IsSound fault h = booted-IsSound true

pub served-IsSound : IsSound (value served)
served-IsSound = value-IsSound served (
    serve-daemon_start-IsSound good_sys true (
      need_start_tick
      ∷ need_start_tick
      ∷ hello_tick
      ∷ hello_ack (pos 100)
      ∷ hello_tick
      ∷ hello_tick
      ∷ hello_tick
      ∷ hello_tick
      ∷ []))
