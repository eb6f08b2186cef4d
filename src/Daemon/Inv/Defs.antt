-- ===== src/Daemon/Inv/Defs.antt =====
-- The invariant of the daemon.
use linux_drv.Prelude.{
  Bool, List, [], arith, false, if◌then◌else◌, is_neg, is_null, ltb, none, some, true, ℕ, ◌&&◌,
  ◌++◌, ◌+◌, ◌<◌, ◌==◌, ◌∷◌, ◌≡◌,
}
use linux_drv.Daemon.State.{
  Daemon, Link, Mng, RtPrc, RtState, accept, pool_size, queued, remove, rt_exiting, rt_killing,
  rt_normal, rt_null,
}

abbrev pub count : ℕ → List ℕ → ℕ
count j [] = 0
count j (x ∷ xs) = (if x == j then 1 else 0) + count j xs

abbrev pick {ℓ} : {A : Type ℓ} → A → A → A → A → RtState → A
pick a b c d rt_null = a
pick a b c d rt_normal = b
pick a b c d rt_exiting = c
pick a b c d rt_killing = d

abbrev pub list_of : Daemon → RtState → List ℕ
list_of d = pick d.pool d.normal d.exiting d.killing

abbrev pub same_state : RtState → RtState → Bool
same_state rt_null rt_null = true
same_state rt_normal rt_normal = true
same_state rt_exiting rt_exiting = true
same_state rt_killing rt_killing = true
same_state _ _ = false

abbrev pub is_queued : Link → Bool
is_queued queued = true
is_queued _ = false

-- Every entry of the array stands once in the list of its state and in no other list.
abbrev pub IsListed : (ℕ → RtPrc) → (RtState → List ℕ) → Type 0
IsListed rts list =
    (s : RtState) (j : ℕ)
    → count j (list s) ≡ (if ltb j pool_size && same_state s (rts j).state then 1 else 0)

-- The pointers of managers and processes point at each other; an entry has a manager exactly while it
-- is in use.
pub record IsLinked (rts : ℕ → RtPrc) (mngs : ℕ → Mng) : Type 0 where
  pub down : (m i : ℕ) → (mngs m).child ≡ some i → (rts i).parent ≡ some m
  pub up : (i m : ℕ) → (rts i).parent ≡ some m → (mngs m).child ≡ some i
  pub used : (i : ℕ) → same_state rt_null (rts i).state ≡ is_null (rts i).parent
  pub small : (i : ℕ) → is_null (rts i).parent ≡ false → i < pool_size

-- A process in use has a process number, not -1.
abbrev pub HasPid : (ℕ → RtPrc) → Type 0
HasPid rts = (i : ℕ) → is_null (rts i).parent ≡ false → is_neg (rts i).pid ≡ false

-- The waiting managers, each once, are those whose node is linked; none of them has a process.
pub record IsQueued (mngs : ℕ → Mng) (to_start : List ℕ) : Type 0 where
  pub once : (m : ℕ) → count m to_start ≡ (if is_queued (mngs m).link then 1 else 0)
  pub idle : (m : ℕ) → is_queued (mngs m).link ≡ true → (mngs m).child ≡ none

pub record IsSound (d : Daemon) : Type 0 where
  pub listed : IsListed d.rts (list_of d)
  pub linked : IsLinked d.rts d.mngs
  pub has_pid : HasPid d.rts
  pub is_waiting : IsQueued d.mngs d.to_start

pub count-append : (j : ℕ) (xs ys : List ℕ) → count j (xs ++ ys) ≡ count j xs + count j ys
count-append j [] ys = omega arith
count-append j (x ∷ xs) ys = omega (arith, count-append j xs ys)

pub count-remove :
    (j i : ℕ) (xs : List ℕ) → count j (remove i xs) ≡ (if j == i then 0 else count j xs)
count-remove j i [] = ground arith
count-remove j i (x ∷ xs) = ground (arith, count-remove j i xs)

count-remove-append :
    (j i : ℕ) (xs : List ℕ) → count j (remove i xs ++ (i ∷ [])) ≡ (if j == i then 1 else count j xs)
count-remove-append j i xs =
    ground (arith, count-append j (remove i xs) (i ∷ []), count-remove j i xs)

-- Where an entry goes when it is accepted by the list of the state `s`.
pub count-accept :
    (s t : RtState) (i j : ℕ) (d : Daemon)
    → count j (list_of (accept s i d) t)
      ≡ (if j == i then (if same_state t s then 1 else 0) else count j (list_of d t))
unfolding accept
count-accept rt_null rt_null i j d = count-remove-append j i d.pool
count-accept rt_null rt_normal i j d = count-remove j i d.normal
count-accept rt_null rt_exiting i j d = count-remove j i d.exiting
count-accept rt_null rt_killing i j d = count-remove j i d.killing
count-accept rt_normal rt_null i j d = count-remove j i d.pool
count-accept rt_normal rt_normal i j d = count-remove-append j i d.normal
count-accept rt_normal rt_exiting i j d = count-remove j i d.exiting
count-accept rt_normal rt_killing i j d = count-remove j i d.killing
count-accept rt_exiting rt_null i j d = count-remove j i d.pool
count-accept rt_exiting rt_normal i j d = count-remove j i d.normal
count-accept rt_exiting rt_exiting i j d = count-remove-append j i d.exiting
count-accept rt_exiting rt_killing i j d = count-remove j i d.killing
count-accept rt_killing rt_null i j d = count-remove j i d.pool
count-accept rt_killing rt_normal i j d = count-remove j i d.normal
count-accept rt_killing rt_exiting i j d = count-remove j i d.exiting
count-accept rt_killing rt_killing i j d = count-remove-append j i d.killing
