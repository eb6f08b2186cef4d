-- ===== src/Delay/Tests.antt =====
-- Sleeps at concrete inputs.
use linux_drv.Prelude.{arith, if◌then◌else◌, ◌==◌, negsuc, pos, refl}
use linux_drv.Delay.Sleep.{Clock, mssleep, nssleep, ssleep, ussleep}
use linux_drv.Delay.Target.{SleepsFor, Wakes, sleeps_lem}

-- The clock stands at 7.9 s; the first call is interrupted.
abbrev clock : Clock
clock = record {
  ret = pos 0;
  now = record { tv_sec = pos 7; tv_nsec = pos 900000000 };
  woken = λ k. if k == 0 then negsuc 3 else pos 0;
}

clock-Wakes : Wakes clock 7 900000000 1
clock-Wakes = record {
  read = refl;
  standing = refl;
  before = λ k lt. ground (arith, lt);
  last = refl;
}

sleeps_lem_example :
    SleepsFor 7 900000000 1 1500000000000 (ssleep clock 3 1500)
    × SleepsFor 7 900000000 1 1500000000 (mssleep clock 3 1500)
    × SleepsFor 7 900000000 1 1500000 (ussleep clock 3 1500)
    × SleepsFor 7 900000000 1 1500 (nssleep clock 3 1500)
sleeps_lem_example = sleeps_lem clock 3 1500 clock-Wakes (omega arith)
