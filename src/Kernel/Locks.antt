-- ===== src/Kernel/Locks.antt =====
-- The lock discipline of a log: which locks are held, and no lock taken twice.
use linux_drv.Prelude.{
  ==_self, Bool, List, Option, [], false, if◌then◌else◌, none, refl, some, true, ◌==◌, ◌||◌, ◌∷◌,
  ◌≡◌,
}
use linux_drv.Kernel.Calls.{
  Call, Log, Mutex, card_type, int_reg, lock, pdm_dev, regs_info, sifp, slot, sys_func, udf, unlock,
}

abbrev pub same_mutex : Mutex → Mutex → Bool
same_mutex card_type card_type = true
same_mutex int_reg int_reg = true
same_mutex pdm_dev pdm_dev = true
same_mutex sys_func sys_func = true
same_mutex regs_info regs_info = true
same_mutex (slot i) (slot j) = i == j
same_mutex (sifp i) (sifp j) = i == j
same_mutex (udf i) (udf j) = i == j
same_mutex _ _ = false

abbrev pub holds : Mutex → List Mutex → Bool
holds m [] = false
holds m (n ∷ ms) = same_mutex m n || holds m ms

-- `none` is a deadlock of the caller with itself, or a release of a lock other than the last taken.
abbrev pub take_lock : Mutex → List Mutex → Option (List Mutex)
take_lock m ms = if holds m ms then none else some (m ∷ ms)

abbrev pub drop_lock : Mutex → List Mutex → Option (List Mutex)
drop_lock m [] = none
drop_lock m (n ∷ ms) = if same_mutex m n then some ms else none

abbrev pub lock_step : Call → List Mutex → Option (List Mutex)
lock_step (lock m) ms = take_lock m ms
lock_step (unlock m) ms = drop_lock m ms
lock_step _ ms = some ms

-- The locks held after the calls of a log, the last taken first.
abbrev pub held : Log → Option (List Mutex)
held [] = some []
held (c ∷ l) = elim (held l) [ none ↦ none | some ms ↦ lock_step c ms ]

same_mutex_self : (m : Mutex) → same_mutex m m ≡ true
same_mutex_self card_type = refl
same_mutex_self int_reg = refl
same_mutex_self pdm_dev = refl
same_mutex_self sys_func = refl
same_mutex_self regs_info = refl
same_mutex_self (slot i) = ==_self i
same_mutex_self (sifp i) = ==_self i
same_mutex_self (udf i) = ==_self i

pub held-lock :
    (m : Mutex) (l : Log) {ms : List Mutex}
    → held l ≡ some ms
    → holds m ms ≡ false
    → held (lock m ∷ l) ≡ some (m ∷ ms)
held-lock m l h f = rw (h, f)

pub held-unlock :
    (m : Mutex) (l : Log) {ms : List Mutex} → held l ≡ some (m ∷ ms) → held (unlock m ∷ l) ≡ some ms
held-unlock m l h = rw (h, same_mutex_self m)

-- A call that is neither of a lock.
abbrev pub is_plain : Call → Bool
is_plain (lock m) = false
is_plain (unlock m) = false
is_plain _ = true
