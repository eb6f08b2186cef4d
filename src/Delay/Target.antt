-- ===== src/Delay/Target.antt =====
-- The time that a sleep ends at.
use mathlib.Core.Path.{subst}
use linux_drv.Prelude.{
  Bool-cases, Option, ap, arith, false, inl, inr, is_neg, lez, ltb, pos, refl, some, suc, true,
  zero, ℕ, ◌%◌, ◌*◌, ◌+ℤ◌, ◌+◌, ◌-ℤ◌, ◌-◌, ◌/◌, ◌<◌, ◌^◌, ◌∙◌, ◌≡◌, ◌≤◌,
}
use linux_drv.Delay.Sleep.{
  Clock, Timespec, add_safe, borrow, carry, mssleep, nanosleep, nsec_per_sec, nssleep,
  set_normalized, sleep_internal, ssleep, ussleep,
}

add-pos : (a b : ℕ) → pos a +ℤ pos b ≡ pos (a + b)
add-pos a b = ground arith

sub-pos : (a b : ℕ) → b ≤ a → pos a -ℤ pos b ≡ pos (a - b)
sub-pos a b h = ground arith

abbrev at : ℕ → ℕ → Timespec
at s n = record { tv_sec = pos s; tv_nsec = pos n }

same_at : {s t m n : ℕ} → s ≡ t → m ≡ n → at s m ≡ at t n
same_at {s} {t} {m} {n} e f = rw (e, f) refl

carry-div : (k s n : ℕ) → n ≤ k → carry k (pos s) (pos n) ≡ at (s + n / 1000000000) (n % 1000000000)
unfolding carry
carry-div zero s n h = same_at (omega (arith, h)) (omega (arith, h))
carry-div (suc k) s n h = elim (Bool-cases (lez (pos nsec_per_sec) (pos n))) [
  | inl e ↦
      let more : 1000000000 ≤ n = ground (arith, e) in
      let round : carry (suc k) (pos s) (pos n)
          ≡ carry k (pos s +ℤ pos 1) (pos n -ℤ pos 1000000000) =
        rw e refl in
      round
      ∙ ap (λ x. carry k x (pos n -ℤ pos 1000000000)) (add-pos s 1)
      ∙ ap (carry k (pos (s + 1))) (sub-pos n 1000000000 more)
      ∙ carry-div k (s + 1) (n - 1000000000) (omega (arith, h, more))
      ∙ same_at (omega (arith, more)) (omega (arith, more))
  | inr e ↦
      let less : n < 1000000000 = ground (arith, e) in
      rw e (same_at (omega (arith, less)) (omega (arith, less)))
]

-- For times that are not negative the loops of set_normalized_timespec come to a division: the seconds grow by the quotient, and the nanoseconds are the remainder.
set_normalized-div :
    (s n : ℕ)
    → set_normalized (pos s) (pos n)
      ≡ record { tv_sec = pos (s + n / 1000000000); tv_nsec = pos (n % 1000000000) }
unfolding set_normalized borrow
set_normalized-div s n = rw (carry-div n s n (omega arith)) refl

-- The clock can be read and stands at the given time, and the first call of clock_nanosleep whose
-- answer is not negative is the call `m`, counted from 0.
pub record Wakes (c : Clock) (s n m : ℕ) : Type 0 where
  pub read : is_neg c.ret ≡ false
  pub standing : c.now ≡ record { tv_sec = pos s; tv_nsec = pos n }
  pub before : (k : ℕ) → k < m → is_neg (c.woken k) ≡ true
  pub last : is_neg (c.woken m) ≡ false

nanosleep_lem :
    (c : Clock) {s n m : ℕ} (fuel k : ℕ)
    → Wakes c s n m
    → k ≤ m
    → m < k + fuel
    → nanosleep c fuel k ≡ some (suc m)
unfolding nanosleep
nanosleep_lem c zero k w le lt = absurd (omega (arith, le, lt))
nanosleep_lem c {m = m} (suc fuel) k w le lt = elim (Bool-cases (ltb k m)) [
  | inl e ↦
      rw (w.before k (ground (arith, e)))
        (nanosleep_lem c fuel (suc k) w (ground (arith, e)) (omega (arith, lt)))
  | inr e ↦
      let here : k ≡ m = ground (arith, e, le) in
      let awake : is_neg (c.woken k) ≡ false = rw here w.last in rw awake (rw here refl)
]

-- The sleep calls clock_nanosleep m + 1 times, for a time that is `ns` nanoseconds after `n` in the
-- second `s`.
abbrev pub SleepsFor : ℕ → ℕ → ℕ → ℕ → Option (Option Timespec × ℕ) → Type 0
SleepsFor s n m ns r =
    (t : ℕ) × (k : ℕ) × (r ≡ some (some (record { tv_sec = pos t; tv_nsec = pos k }), suc m))
    × (k < 1000000000)
    × (t * 1000000000 + k ≡ s * 1000000000 + n + ns)

sleep_internal_lem :
    (c : Clock) {s n m : ℕ} (fuel sec nsec : ℕ)
    → Wakes c s n m
    → m < fuel
    → SleepsFor s n m (sec * 1000000000 + nsec) (sleep_internal c fuel sec nsec)
unfolding sleep_internal add_safe
sleep_internal_lem c {s} {n} {m} fuel sec nsec w lt = (
  s + sec + (n + nsec) / 1000000000,
  (n + nsec) % 1000000000,
  rw
      (
        w.read,
        nanosleep_lem c fuel 0 w (omega arith) (omega (arith, lt)),
        w.standing,
        add-pos s sec,
        add-pos n nsec,
        set_normalized-div (s + sec) (n + nsec),
      )
      refl,
  omega arith,
  omega arith,
)

-- A sleep of k seconds, milliseconds, microseconds or nanoseconds, where the clock can be read
-- and stands at the time (s, n), and the m-th call of clock_nanosleep, counted from 0, is the
-- first that does not answer a negative number: it ends after m + 1 calls, each of them for the
-- time that lies exactly k such units behind the clock's, with less than 10^9 nanoseconds.
pub sleeps_lem :
    (c : Clock) {s n m : ℕ} (fuel k : ℕ)
    → Wakes c s n m
    → m < fuel
    → SleepsFor s n m (k * 1000000000) (ssleep c fuel k)
      × SleepsFor s n m (k * 1000000) (mssleep c fuel k)
      × SleepsFor s n m (k * 1000) (ussleep c fuel k)
      × SleepsFor s n m k (nssleep c fuel k)
unfolding ssleep mssleep ussleep nssleep
sleeps_lem c {s} {n} {m} fuel k w lt = (
  subst (λ x. SleepsFor s n m x (ssleep c fuel k)) (omega arith)
      (sleep_internal_lem c fuel k 0 w lt),
  subst (λ x. SleepsFor s n m x (mssleep c fuel k)) (omega arith)
      (sleep_internal_lem c fuel (k / 1000) (k % 1000 * 1000000 % 2 ^ 32) w lt),
  subst (λ x. SleepsFor s n m x (ussleep c fuel k)) (omega arith)
      (sleep_internal_lem c fuel (k / 1000000) (k % 1000000 * 1000 % 2 ^ 32) w lt),
  subst (λ x. SleepsFor s n m x (nssleep c fuel k)) (omega arith)
      (sleep_internal_lem c fuel (k / 1000000000) (k % 1000000000) w lt),
)
