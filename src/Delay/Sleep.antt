-- ===== src/Delay/Sleep.antt =====
-- The sleeps of ukc_delay.c, down to the system calls. `unsigned int` has 32 bits, and a sum of
-- seconds is small enough not to wrap.
use mathlib.Core.Option
use linux_drv.Prelude.{
  Option, if◌then◌else◌, is_neg, lez, neg_part, none, pos, pos_part, some, suc, zero, ℕ, ℤ, ◌%◌,
  ◌*◌, ◌+ℤ◌, ◌-ℤ◌, ◌/◌, ◌^◌,
}

-- `struct timespec`
pub record Timespec : Type 0 where
  pub tv_sec : ℤ
  pub tv_nsec : ℤ

abbrev pub nsec_per_sec : ℕ
nsec_per_sec = 1000000000

-- The loops of `set_normalized_timespec`, at most `k` rounds each.
unfoldable pub carry : ℕ → ℤ → ℤ → Timespec
carry zero s n = record { tv_sec = s; tv_nsec = n }
carry (suc k) s n =
    let rest = carry k (s +ℤ pos 1) (n -ℤ pos nsec_per_sec) in
    if lez (pos nsec_per_sec) n then rest else record { tv_sec = s; tv_nsec = n }

unfoldable pub borrow : ℕ → ℤ → ℤ → Timespec
borrow zero s n = record { tv_sec = s; tv_nsec = n }
borrow (suc k) s n =
    let rest = borrow k (s -ℤ pos 1) (n +ℤ pos nsec_per_sec) in
    if is_neg n then rest else record { tv_sec = s; tv_nsec = n }

-- `set_normalized_timespec`: a round changes `nsec` by more than 1, so that |nsec| rounds are enough.
unfoldable pub set_normalized : ℤ → ℤ → Timespec
set_normalized s n =
    let t = carry (pos_part n) s n in borrow (neg_part t.tv_nsec) t.tv_sec t.tv_nsec

-- `timespec_add_safe`
unfoldable pub add_safe : Timespec → Timespec → Timespec
add_safe a b = set_normalized (a.tv_sec +ℤ b.tv_sec) (a.tv_nsec +ℤ b.tv_nsec)

-- The system calls: `now` is what clock_gettime gives, with its answer, and `woken` what the k-th
-- clock_nanosleep answers.
pub record Clock : Type 0 where
  pub ret : ℤ
  pub now : Timespec
  pub woken : ℕ → ℤ

-- The loop of `ukc_sleep_internal` from its k-th call on, at most `fuel` rounds: how often it called
-- clock_nanosleep, where it ended.
unfoldable pub nanosleep : Clock → ℕ → ℕ → Option ℕ
nanosleep c zero k = none
nanosleep c (suc fuel) k =
    let rest = nanosleep c fuel (suc k) in if is_neg (c.woken k) then rest else some (suc k)

-- `ukc_sleep_internal`: the absolute time that it sleeps until, none where the clock cannot be read,
-- and how often it calls clock_nanosleep.
unfoldable pub sleep_internal : Clock → ℕ → ℕ → ℕ → Option (Option Timespec × ℕ)
sleep_internal c fuel sec nsec =
    let ts = add_safe c.now (record { tv_sec = pos sec; tv_nsec = pos nsec }) in
    if is_neg c.ret then some (none, 0) else Option.map (λ k. (some ts, k)) (nanosleep c fuel 0)

-- `ukc_ssleep`, `ukc_mssleep`, `ukc_ussleep` and `ukc_nssleep`
unfoldable pub ssleep : Clock → ℕ → ℕ → Option (Option Timespec × ℕ)
ssleep c fuel n = sleep_internal c fuel n 0

unfoldable pub mssleep : Clock → ℕ → ℕ → Option (Option Timespec × ℕ)
mssleep c fuel n = sleep_internal c fuel (n / 1000) (n % 1000 * 1000000 % 2 ^ 32)

unfoldable pub ussleep : Clock → ℕ → ℕ → Option (Option Timespec × ℕ)
ussleep c fuel n = sleep_internal c fuel (n / 1000000) (n % 1000000 * 1000 % 2 ^ 32)

unfoldable pub nssleep : Clock → ℕ → ℕ → Option (Option Timespec × ℕ)
nssleep c fuel n = sleep_internal c fuel (n / 1000000000) (n % 1000000000)
