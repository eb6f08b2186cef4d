-- ===== src/Daemon/Progress.antt =====
-- Waiting managers are started, one with each callback of the timer.
use linux_drv.Prelude.{
  List, Option-cases, [], ap, arith, false, inl, inr, is_neg, is_null, length, none, refl, some,
  suc, sym, true, zero, ℕ, ℤ, ◌+◌, ◌-◌, ◌<◌, ◌∙◌, ◌∷◌, ◌≡◌, ◌≤◌,
}
use linux_drv.Card.{is_card_type_err}
use linux_drv.Daemon.Events.{Event, need_start_tick, serve, step}
use linux_drv.Daemon.Inv.Defs.{IsSound, count, is_queued}
use linux_drv.Daemon.Inv.Managers.{count_first}
use linux_drv.Daemon.Inv.Moves.{at}
use linux_drv.Daemon.Inv.NoFault.{IsServing, check_need_start-IsSettled}
use linux_drv.Daemon.Inv.Ops.{Holds}
use linux_drv.Daemon.Inv.Settled.{Fine, IsSettled, needs_process}
use linux_drv.Daemon.Inv.Ticks.{check_need_start-IsSound}
use linux_drv.Daemon.Live.{Done, Done-bind, Done-map}
use linux_drv.Daemon.Manager.{
  captured, check_need_start, del_from2_start, have_card_inserted, removed, start, sub_start,
}
use linux_drv.Daemon.Runtime.{capture, capture_started, rt_start}
use linux_drv.Daemon.State.{
  Card, Daemon, Run, Sys, SysCall, accept, exited, fault, first_entry, fork, ok, queued, remove,
  rt_null, ◌>>=◌,
}

-- Every fork succeeds.
abbrev pub CanFork : Sys → Type 0
CanFork sys = (cs : List SysCall) (m : ℕ) → is_neg (sys cs (fork m)) ≡ false

-- An inserted card is of a type that has a name.
abbrev pub HasNames : Daemon → Type 0
HasNames d =
    (m : ℕ) (c : Card)
    → (d.mngs m).card ≡ some c
    → have_card_inserted c ≡ true
    → is_card_type_err c.card_kind ≡ false

length-remove : (i : ℕ) (xs : List ℕ) → length (remove i xs) + count i xs ≡ length xs
length-remove i [] = refl
length-remove i (x ∷ xs) = ground (arith, length-remove i xs)

-- What starting the manager `m` with the entry `i` does.
record HasStarted (m i : ℕ) (d d1 : Daemon) : Type 0 where
  to_start : d1.to_start ≡ remove m d.to_start
  pool : d1.pool ≡ remove i d.pool
  cards : (n : ℕ) → (d1.mngs n).card ≡ (d.mngs n).card

abbrev IsCaptured : ℕ → ℕ → Daemon → ℤ × Daemon → Type 0
IsCaptured m i d (r, d1) =
    (is_neg r ≡ false)
    × (d1.mngs ≡ at m (record (d.mngs m) { child = some i }) d.mngs)
    × (d1.to_start ≡ d.to_start)
    × (d1.pool ≡ remove i d.pool)

-- There is an entry for every manager that waits.
abbrev pub IsReady : Daemon → Type 0
IsReady d = IsServing d × HasNames d × (length d.to_start ≤ length d.pool)

abbrev Serving : Run Daemon → Type 0
Serving r = Holds IsSound r × Fine IsSettled r

Done-also :
    (Q S : Daemon → Type 0) (r : Run Daemon)
    → Serving r
    → Done Q r
    → ((d1 : Daemon) → IsServing d1 → Q d1 → S d1)
    → Done S r
Done-also Q S (ok d1) h q k = k d1 h q
Done-also Q S exited h q k = q
Done-also Q S fault h q k = q

Serving-tick : (sys : Sys) (d : Daemon) → IsServing d → Serving (check_need_start sys d)
Serving-tick sys d (h, k) = (check_need_start-IsSound sys d h, check_need_start-IsSettled sys d h k)

IsReady-again :
    (m i : ℕ) (d d1 : Daemon)
    → first_entry d.to_start ≡ some m
    → first_entry d.pool ≡ some i
    → IsServing d
    → HasNames d
    → length d.to_start ≤ length d.pool
    → IsServing d1
    → HasStarted m i d d1
    → IsReady d1 × (length d1.to_start ≡ length d.to_start - 1)
IsReady-again m i d d1 e f (h, _) names room k s =
    let one = count_first m d.to_start e in
    let once : count m d.to_start ≡ 1 = ground (arith, one, h.is_waiting.once m) in
    let free = count_first i d.pool f in
    let alone : count i d.pool ≡ 1 = ground (arith, free, h.listed rt_null i) in
    let less : length d1.to_start + 1 ≡ length d.to_start =
      (rw s.to_start (omega (arith, length-remove m d.to_start, once))) in
    let less_pool : length d1.pool + 1 ≡ length d.pool =
      (rw s.pool (omega (arith, length-remove i d.pool, alone))) in
    (
      (k, (λ n c g. names n c (sym (s.cards n) ∙ g)), omega (arith, less, less_pool, room)),
      omega (arith, less),
    )

first_of : (xs : List ℕ) → 0 < length xs → (i : ℕ) × (first_entry xs ≡ some i)
first_of [] h = absurd (omega (arith, h))
first_of (x ∷ xs) h = (x, refl)

abbrev pub ticks : ℕ → List Event
ticks zero = []
ticks (suc n) = need_start_tick ∷ ticks n

count_none : (m : ℕ) (xs : List ℕ) → length xs ≡ 0 → count m xs ≡ 0
count_none m [] h = refl
count_none m (x ∷ xs) h = absurd (omega (arith, h))

has_child :
    (d : Daemon) (m : ℕ)
    → IsServing d
    → length d.to_start ≡ 0
    → needs_process (d.mngs m).card ≡ true
    → is_null (d.mngs m).child ≡ false
has_child d m (h, k) e needs = elim (Option-cases (d.mngs m).child) [
  | inl f ↦
      absurd (ground (arith, k.waits m f, needs, h.is_waiting.once m, count_none m d.to_start e))
  | inr (i, f) ↦ ground (arith, f)
]

module _ (sys : Sys) (can : CanFork sys) where
  capture_lem :
      (m i : ℕ) (d : Daemon) → first_entry d.pool ≡ some i → IsCaptured m i d (capture sys m d)
  unfolding capture capture_started rt_start accept
  capture_lem m i d e = rw (e, capture, can d.calls m) (refl, refl, refl, refl)

  captured_lem :
      (m i : ℕ) (d : Daemon) (r : ℤ × Daemon)
      → (d.mngs m).link ≡ queued
      → IsCaptured m i d r
      → Done (λ p. HasStarted m i d p.1) (captured m r)
  unfolding captured removed del_from2_start
  captured_lem m i d (n, d1) q (e, g, t, p) =
      let now : (k : ℕ) → d1.mngs k ≡ at m (record (d.mngs m) { child = some i }) d.mngs k =
        (λ k. ap (λ x. x k) g) in
      let link : (d1.mngs m).link ≡ queued = ground (arith, now m, q) in
      rw (e, link, del_from2_start)
        (record { to_start = ap (remove m) t; pool = p; cards = λ n. ground (arith, now n) })

  sub_start_lem :
      (m i : ℕ) (d : Daemon)
      → first_entry d.pool ≡ some i
      → (d.mngs m).link ≡ queued
      → needs_process (d.mngs m).card ≡ true
      → HasNames d
      → Done (λ p. HasStarted m i d p.1) (sub_start sys m d)
  unfolding sub_start
  sub_start_lem m i d e q needs names =
      let fork_it = captured_lem m i d (capture sys m d) q (capture_lem m i d e) in
      elim (Option-cases (d.mngs m).card) [
        | inl f ↦ rw (f, sub_start) fork_it
        | inr (c, f) ↦
            let inserted : have_card_inserted c ≡ true = ground (arith, needs, f) in
            rw (f, inserted, names m c f inserted, sub_start) fork_it
      ]

  check_need_start_lem :
      (m i : ℕ) (d : Daemon)
      → first_entry d.pool ≡ some i
      → first_entry d.to_start ≡ some m
      → IsServing d
      → HasNames d
      → Done (HasStarted m i d) (check_need_start sys d)
  unfolding check_need_start start
  check_need_start_lem m i d e f (h, k) names =
      let waiting : is_queued (d.mngs m).link ≡ true =
        ground (arith, count_first m d.to_start f, h.is_waiting.once m) in
      let alone : (d.mngs m).child ≡ none = h.is_waiting.idle m waiting in
      let started =
        sub_start_lem m i d e (ground (arith, waiting)) (ground (arith, k.waits m alone, waiting))
          names in
      rw (f, alone, check_need_start, start)
        (Done-bind (HasStarted m i d) (HasStarted m i d) (sub_start sys m d >>= λ r. ok r.1) _
          (Done-bind (λ p. HasStarted m i d p.1) (HasStarted m i d) (sub_start sys m d) _ started
            (λ p s. s))
          (λ d1 s. record { to_start = s.to_start; pool = s.pool; cards = s.cards }))

  -- A tick while managers wait.
  tick_lem :
      (d : Daemon)
      → IsReady d
      → 0 < length d.to_start
      → Done
          (λ d1. IsReady d1 × (length d1.to_start ≡ length d.to_start - 1))
          (step sys need_start_tick d)
  unfolding step
  tick_lem d (h, names, room) some_wait =
      let (m, e) = first_of d.to_start some_wait in
      let (i, f) = first_of d.pool (omega (arith, room, some_wait)) in
      Done-also (HasStarted m i d) _ (check_need_start sys d) (Serving-tick sys d h)
        (check_need_start_lem m i d f e h names)
        (λ d1 k s. IsReady-again m i d d1 e f h names room k s)

  ticks_lem :
      (n : ℕ) (d : Daemon)
      → IsReady d
      → length d.to_start ≡ n
      → Done (λ d1. IsServing d1 × (length d1.to_start ≡ 0)) (serve sys (ticks n) d)
  unfolding serve
  ticks_lem zero d r e = (r.0, e)
  ticks_lem (suc n) d r e =
      Done-bind (λ d1. IsReady d1 × (length d1.to_start ≡ length d.to_start - 1))
        (λ d1. IsServing d1 × (length d1.to_start ≡ 0)) (step sys need_start_tick d) _
        (tick_lem d r (omega (arith, e))) (λ d1 k. ticks_lem n d1 k.0 (omega (arith, k.1, e)))

  -- While every fork succeeds, every inserted card has a type with a name and there is an entry for
  -- every manager that waits: after as many callbacks of the timer as managers wait, none waits, and
  -- every manager that needs a process has one.
  pub all_started_lem :
      (d : Daemon)
      → IsReady d
      → Done
          (λ d1.
            (length d1.to_start ≡ 0)
            × ((m : ℕ) → needs_process (d1.mngs m).card ≡ true → is_null (d1.mngs m).child ≡ false))
          (serve sys (ticks (length d.to_start)) d)
  all_started_lem d r =
      Done-map _ _ (serve sys (ticks (length d.to_start)) d)
        (ticks_lem (length d.to_start) d r refl)
        (λ d1 k. (k.1, λ m needs. has_child d1 m k.0 k.1 needs))
