-- ===== src/Frame/Reading.antt =====
-- Reading an open file: what poll says of it.
use linux_drv.Prelude.{
  List, Option, [], arith, false, get_or-set_self, length, length-set, none, refl, set, some, true,
  ℕ, ℤ, Bool, ◌<◌, ◌∷◌, ◌≡◌,
}
use linux_drv.Frame.File.{udf_isr, udf_poll, udf_read}
use linux_drv.Frame.Halves.{th_isr, th_read}
use linux_drv.Frame.State.{Top, Udf, UdfDrv, dev_at}
use linux_drv.Kernel.{Log, Os, held, held-unlock, lock, udf, unlock, wake_up}

-- A read of the file, or an interrupt of its card.
pub data FileOp : Type 0 where
  read interrupt : FileOp

unfoldable pub file_op : Os → ℕ → FileOp → Udf → Log → Option (ℤ × Udf × Log)
file_op os i read u l = udf_read os i u l
file_op os i interrupt u l = udf_isr os i u l

unfoldable pub file_ops : Os → ℕ → List FileOp → Udf → Log → Option (Udf × Log)
file_ops os i [] u l = some (u, l)
file_ops os i (o ∷ os') u l = elim (file_op os i o u l) [
  | none ↦ none
  | some (_, u', l') ↦ file_ops os i os' u' l'
]

-- An interrupt came after the last read.
abbrev pub pending : Bool → List FileOp → Bool
pending b [] = b
pending b (read ∷ ops) = pending false ops
pending b (interrupt ∷ ops) = pending true ops

-- The device of the slot is open, with the top half `t`, and its bit BIT_CAN_READ is `b`.
abbrev pub IsReadable : ℕ → Top → Bool → Udf → Type 0
IsReadable i t b u =
    (d : UdfDrv) × (dev_at u i ≡ some d)
    × (d.m_data ≡ some t)
    × (d.can_read ≡ b)
    × (i < length u.dev_set)

file_op-IsReadable :
    (os : Os) (i : ℕ) (t : Top) (b : Bool) (o : FileOp) (u : Udf) (l : Log)
    → IsReadable i t b u
    → held l ≡ some []
    → (r : ℤ) × (u' : Udf) × (l' : Log) × (file_op os i o u l ≡ some (r, u', l'))
      × IsReadable i t (pending b (o ∷ [])) u'
      × (held l' ≡ some [])
unfolding file_op udf_read udf_isr th_read th_isr
file_op-IsReadable os i t b read u l (d, at_i, opened, _, lt) h =
    let d' = record d { can_read = false } in
    let l1 = (th_read os t (lock (udf i) ∷ l)).1 in
    (
      (th_read os t (lock (udf i) ∷ l)).0,
      record u { dev_set = set u.dev_set i (some d') },
      unlock (udf i) ∷ l1,
      rw (at_i, opened) refl,
      (
        d',
        get_or-set_self u.dev_set i (some d') none lt,
        opened,
        refl,
        omega (arith, lt, length-set u.dev_set i (some d')),
      ),
      held-unlock (udf i) l1 (rw h),
    )
file_op-IsReadable os i t b interrupt u l (d, at_i, opened, _, lt) h =
    let d' = record d { can_read = true } in
    let l1 = wake_up ∷ (th_isr os t (lock (udf i) ∷ l)).1 in
    (
      (th_isr os t (lock (udf i) ∷ l)).0,
      record u { dev_set = set u.dev_set i (some d') },
      unlock (udf i) ∷ l1,
      rw (at_i, opened) refl,
      (
        d',
        get_or-set_self u.dev_set i (some d') none lt,
        opened,
        refl,
        omega (arith, lt, length-set u.dev_set i (some d')),
      ),
      held-unlock (udf i) l1 (rw h),
    )

-- Any sequence of reads and interrupts on an open file, no lock being held, runs without a
-- fault, and poll then says that the file is readable exactly where an interrupt came after the
-- last read (and where there is neither, what it said before); the file stays open with the same
-- top half, and no lock is held.
pub udf_poll_lem :
    (os : Os) (i : ℕ) (t : Top) (b : Bool) (ops : List FileOp) (u : Udf) (l : Log)
    → IsReadable i t b u
    → held l ≡ some []
    → (u' : Udf) × (l' : Log) × (k : Log) × (file_ops os i ops u l ≡ some (u', l'))
      × (udf_poll i u' l' ≡ some (pending b ops, k))
      × IsReadable i t (pending b ops) u'
      × (held k ≡ some [])
unfolding file_ops udf_poll
udf_poll_lem os i t b [] u l (d, at_i, opened, e, lt) h = (
  u,
  l,
  unlock (udf i) ∷ lock (udf i) ∷ l,
  refl,
  rw (at_i, e, udf_poll) refl,
  (d, at_i, opened, e, lt),
  held-unlock (udf i) (lock (udf i) ∷ l) (rw h),
)
udf_poll_lem os i t b (read ∷ ops) u l ready h =
    let (r, u1, l1, e, ready1, h1) = file_op-IsReadable os i t b read u l ready h in
    let (u', l', k, run, poll, still, free) = udf_poll_lem os i t false ops u1 l1 ready1 h1 in
    (u', l', k, rw (e, file_ops) run, poll, still, free)
udf_poll_lem os i t b (interrupt ∷ ops) u l ready h =
    let (r, u1, l1, e, ready1, h1) = file_op-IsReadable os i t b interrupt u l ready h in
    let (u', l', k, run, poll, still, free) = udf_poll_lem os i t true ops u1 l1 ready1 h1 in
    (u', l', k, rw (e, file_ops) run, poll, still, free)
