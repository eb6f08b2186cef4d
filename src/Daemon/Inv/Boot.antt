-- ===== src/Daemon/Inv/Boot.antt =====
-- What `CStaticPrcMngInfo::sStart` does to the managers.
use linux_drv.Prelude.{arith, if◌then◌else◌, leb, ltb, refl, suc, zero, ℕ, ◌&&◌, ◌+◌, ◌∙◌, ◌≡◌, ◌≤◌}
use linux_drv.Daemon.Events.{static_start}
use linux_drv.Daemon.Inv.Settled.{Fine, Fine-bind, Fine-map}
use linux_drv.Daemon.Manager.{add_in2_start}
use linux_drv.Daemon.State.{Daemon, own, queued}

-- The `n` managers from `m` on wait, the others are as they were.
abbrev pub HaveJoined : ℕ → ℕ → Daemon → Daemon → Type 0
HaveJoined m n d d1 =
    ((k : ℕ)
      → d1.mngs k
        ≡ (if leb m k && ltb k (m + n) then record (d.mngs k) { link = queued } else d.mngs k))
    × (d1.exit_flag ≡ d.exit_flag)

joins : (m : ℕ) (d : Daemon) → (d.mngs m).link ≡ own → Fine (HaveJoined m 1 d) (add_in2_start m d)
unfolding add_in2_start
joins m d e = rw (e, add_in2_start) (λ k. ground arith, refl)

pub static_start-HaveJoined :
    (m n : ℕ) (d : Daemon)
    → ((k : ℕ) → m ≤ k → (d.mngs k).link ≡ own)
    → Fine (HaveJoined m n d) (static_start m n d)
unfolding static_start
static_start-HaveJoined m zero d h = (λ k. ground arith, refl)
static_start-HaveJoined m (suc n) d h =
    Fine-bind (HaveJoined m 1 d) (HaveJoined m (suc n) d) (add_in2_start m d) _
      (joins m d (h m (omega arith)))
      (λ d1 j.
        Fine-map (HaveJoined (suc m) n d1) (HaveJoined m (suc n) d) (static_start (suc m) n d1)
          (static_start-HaveJoined (suc m) n d1 (λ k ge. ground (arith, j.0 k, h k)))
          (λ d2 i. (λ k. ground (arith, i.0 k, j.0 k), i.1 ∙ j.1)))
