-- ===== src/Frame/Control.antt =====
-- The ioctl of an open file.
use mathlib.Core.Path.{subst}
use linux_drv.Prelude.{
  Bool-cases, List, Option-cases, [], arith, get_or, inl, inr, length, ltb, none, pos, refl, some,
  sym, ℕ, ℤ, ◌∙◌, ◌<◌, ◌∷◌, ◌≡◌, ◌≢◌, ◌≤◌,
}
use linux_drv.Frame.File.{Extra, FunOut, ioctl_fun, ioctl_run, udf_ioctl, udf_reqs, unlocked}
use linux_drv.Frame.State.{Top, Udf, UdfDrv, dev_at}
use linux_drv.Ioctl.{Codec, IsNumbered, dispatch, dispatch_iff}
use linux_drv.Kernel.{Log, enoioctlcmd, held, held-unlock, lock, udf}
use linux_drv.Pdm.Regs.Hw.{get_addr_space_size}
use linux_drv.Pdm.Slots.Irq.{disable_int, enable_int, query_online}

udf_reqs-IsNumbered :
    (c : Codec) (type : ℕ) (own : List ℕ)
    → IsNumbered c.nr_of 5 own
    → IsNumbered c.nr_of 0 (udf_reqs c type own)
unfolding udf_reqs
udf_reqs-IsNumbered c type own h = (
  c.nr_of-ioc 0 0 type 0 (omega arith),
  (
    c.nr_of-ioc 1 4 type 1 (omega arith),
    (
      c.nr_of-ioc 1 4 type 2 (omega arith),
      (c.nr_of-ioc 1 4 type 3 (omega arith), (c.nr_of-ioc 2 4 type 4 (omega arith), h)),
    ),
  ),
)

-- What the k-th function does to the driver of the slot `slot`, called with the log `l`: the first two
-- nothing, the third switches the interrupt, the fourth and the fifth ask, and the others are the
-- card's own.
abbrev pub Serves : Extra → ℤ → ℕ → ℕ → Udf → Log → FunOut → Type 0
Serves extra slot k arg u l o =
    (k < 5 → o.state.dev_set ≡ u.dev_set)
    × (k < 2 → (o.ret ≡ pos 0) × (o.state ≡ u) × (o.out ≡ none))
    × (k ≡ 2 → arg ≡ 0 → (o.ret ≡ pos 0) × (o.state.pdm ≡ (disable_int slot u.pdm []).1))
    × (k ≡ 2
        → arg ≢ 0
        → (o.ret ≡ (enable_int slot u.pdm []).0) × (o.state.pdm ≡ (enable_int slot u.pdm []).1))
    × (k ≡ 3 → (o.ret ≡ query_online slot) × (o.state ≡ u))
    × (k ≡ 4 → (o.ret ≡ pos 0) × (o.state ≡ u) × (o.out ≡ some (get_addr_space_size u.hw slot)))
    × (5 ≤ k → let e = extra k arg u l in (o.ret ≡ e.ret) × (o.state ≡ e.state) × (o.out ≡ e.out))

ioctl_fun-Serves :
    (extra : Extra) (t : Top) (k arg : ℕ) (u : Udf) (l : Log)
    → 2 ≤ k
    → Serves extra (pos t.bh_rep.slot_no) k arg u l (ioctl_fun extra t k arg u l)
unfolding ioctl_fun disable_int enable_int
ioctl_fun-Serves extra t k arg u l h = ground arith

-- The card's own functions give back the locks that they take.
abbrev pub GivesBack : Extra → Type 0
GivesBack extra =
    (k arg i : ℕ) (u : Udf) (l : Log)
    → held l ≡ some (udf i ∷ [])
    → held (extra k arg u l).log ≡ some (udf i ∷ [])

ioctl_fun-held :
    (extra : Extra) (t : Top) (k arg i : ℕ) (u : Udf) (l : Log)
    → GivesBack extra
    → held l ≡ some (udf i ∷ [])
    → held (ioctl_fun extra t k arg u l).log ≡ some (udf i ∷ [])
unfolding ioctl_fun disable_int enable_int
ioctl_fun-held extra t k arg i u l back h = ground (arith, back k arg i u l h)

-- The k-th function of an open file, the first two of which do not look at the top half.
run_lem :
    (extra : Extra) (t : Top) (k arg i : ℕ) (u : Udf) (l : Log)
    → GivesBack extra
    → held l ≡ some (udf i ∷ [])
    → (o : FunOut) × (ioctl_run extra (some t) k arg u l ≡ some o)
      × Serves extra (pos t.bh_rep.slot_no) k arg u l o
      × (held o.log ≡ some (udf i ∷ []))
unfolding ioctl_run
run_lem extra t k arg i u l back h = elim (Bool-cases (ltb k 2)) [
  | inl e ↦
      (record { ret = pos 0; state = u; out = none; log = l }, rw e refl, ground (arith, e), h)
  | inr e ↦ (
    ioctl_fun extra t k arg u l,
    rw e refl,
    ioctl_fun-Serves extra t k arg u l (ground (arith, e)),
    ioctl_fun-held extra t k arg i u l back h,
  )
]

-- What an ioctl comes to, for the codes of the table and for the others.
abbrev pub Controls : Extra → List ℕ → ℕ → ℤ → ℕ → Udf → Log → FunOut → Type 0
Controls extra reqs cmd slot arg u l o =
    ((k : ℕ) → k < length reqs → cmd ≡ get_or reqs k 0 → Serves extra slot k arg u l o)
    × (((k : ℕ) → k < length reqs → cmd ≢ get_or reqs k 0)
        → (o.ret ≡ enoioctlcmd) × (o.state ≡ u) × (o.out ≡ none))

-- An ioctl of an open file, no lock being held, with a table in which the card's own commands
-- are numbered from 5 on and its own functions give back the locks that they take: it returns
-- and no lock is held. For a command that is none of the table's codes it answers -ENOIOCTLCMD
-- and changes nothing; for the k-th code it does what the k-th function does: the first two
-- answer 0 and change nothing, the third switches the slot's interrupt by the argument, the
-- fourth and the fifth answer whether the slot is online and how large its registers are, and
-- for the others the answer, the frame's data and what is written are those that the card's own
-- function gives, called with the lock held.
pub udf_ioctl_lem :
    (c : Codec) (extra : Extra) (type : ℕ) (own : List ℕ) (i cmd arg : ℕ) (d : UdfDrv) (t : Top)
    (u : Udf) (l : Log)
    → IsNumbered c.nr_of 5 own
    → GivesBack extra
    → dev_at u i ≡ some d
    → d.m_data ≡ some t
    → held l ≡ some []
    → (o : FunOut) × (udf_ioctl c extra type own i cmd arg u l ≡ some o)
      × (held o.log ≡ some [])
      × Controls extra (udf_reqs c type own) cmd (pos t.bh_rep.slot_no) arg u (lock (udf i) ∷ l) o
unfolding udf_ioctl
udf_ioctl_lem c extra type own i cmd arg d t u l numbered back at_i opened h =
    let reqs = udf_reqs c type own in
    let l1 = lock (udf i) ∷ l in
    let locked : held l1 ≡ some (udf i ∷ []) = rw h in
    let codes =
      λ (k : ℕ). dispatch_iff c.nr_of reqs cmd k (udf_reqs-IsNumbered c type own numbered) in
    elim (Option-cases (dispatch c.nr_of reqs cmd)) [
      | inl e ↦ (
        unlocked i (record { ret = enoioctlcmd; state = u; out = none; log = l1 }),
        rw (at_i, e, udf_ioctl) refl,
        held-unlock (udf i) l1 locked,
        ((λ k lt code. absurd (cc (sym e ∙ (codes k).1 (lt, code)))), (λ no. (refl, refl, refl))),
      )
      | inr (k, e) ↦
          let (o, run, serves, free) = run_lem extra t k arg i u l1 back locked in
          (
            unlocked i o,
            rw (at_i, e, opened, run, udf_ioctl) refl,
            held-unlock (udf i) o.log free,
            (
              (λ j lt code.
                  let same : k ≡ j = cc (sym e ∙ (codes j).1 (lt, code)) in
                  subst (λ n. Serves extra (pos t.bh_rep.slot_no) n arg u l1 o) same serves),
              (λ no. absurd (no k ((codes k).0 e).0 ((codes k).0 e).1)),
            ),
          )
    ]
