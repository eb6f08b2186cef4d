-- ===== src/Daemon/Ending/Outcome.antt =====
-- What is left when the daemon has ended.
use linux_drv.Prelude.{Bool, false, some, true, ℕ, ◌<◌, ◌≡◌}
use linux_drv.Daemon.State.{Daemon, SysCall, kill, pool_size}
use linux_drv.Daemon.Ending.Reaping.{IsGone}
use linux_drv.Daemon.Ending.Signals.{IsAlike, Signals, WasMade, WasSignalled}

-- The processes of all managers got a signal.
abbrev AllSignalled : Bool → Daemon → Daemon → Type 0
AllSignalled b d d1 = IsAlike d d1 × ((m : ℕ) → m < pool_size → WasSignalled b m d d1)

-- What the end leaves of a manager: no process, and the one that it had got SIGTERM and SIGKILL.
abbrev pub IsEnded : Daemon → Daemon → ℕ → Type 0
IsEnded d d1 m =
    IsGone m d1
    × ((i : ℕ)
        → (d.mngs m).child ≡ some i
        → WasMade (kill (d.rts i).pid false) d1.calls × WasMade (kill (d.rts i).pid true) d1.calls)

abbrev pub IsStopped : Daemon → Daemon → Type 0
IsStopped d d1 =
    ((m : ℕ) → m < pool_size → IsEnded d d1 m)
    × (d1.start_timer ≡ false)
    × (d1.term_timer ≡ false)
    × (d1.kill_timer ≡ false)
    × (d1.hello_timer ≡ false)
    × (d1.live_timer ≡ false)
    × (d1.card_timer ≡ false)

-- The calls of `d` were also made before `d1`, where no process is left.
abbrev AllGone : Daemon → Daemon → Type 0
AllGone d d1 =
    ((m : ℕ) → m < pool_size → IsGone m d1)
    × ((c : SysCall) → WasMade c d.calls → WasMade c d1.calls)
    × (d1.card_timer ≡ false)
