-- ===== src/Pdm/Module/Failing.antt =====
-- What the module holds in the middle of its start, and how a failed start ends.
use linux_drv.Prelude.{
  arith, Bool, ◌+◌, ◌∙◌, Bool-cases, Option, false, if◌then◌else◌, inl, inr, is_neg, none, pos,
  refl, some, sym, true, ℕ, ℤ, ◌∷◌, ◌≡◌, ◌⊎◌,
}
use mathlib.Core.Path.{subst}
use linux_drv.Kernel.{classes, has_live_class, regions, Log, Os, class_destroy, unregister_region}
use linux_drv.Pdm.FastPath.Device.{SifpDrvs}
use linux_drv.Pdm.FastPath.Start.{exit_all, mid_2_slot}
use linux_drv.Pdm.Module.Kept.{IsKept, Kept_trans, exit_files-IsKept}
use linux_drv.Pdm.Module.Stoppable.{IsStoppable}
use linux_drv.Pdm.Module.Start.{Dmd, dmd_exit, exit_rest, fail, failed}
use linux_drv.Pdm.Regs.Mapping.{
  dtor_hw-KeepsClass, live, maps, unmaps, IsMapped, IsUnmapped, dtor_hw_lem,
}
use linux_drv.Pdm.Regs.RegsInfo.{regs_exit}
use linux_drv.Pdm.Slots.State.{Slots}
use linux_drv.Pdm.SysFunc.Device.{sys_func_exit}

-- The module's pointers are null: no class, no device numbers, no mapping.
abbrev pub IsStopped : Dmd → Type 0
IsStopped d = (d.has_class ≡ false) × (d.has_region ≡ false) × IsUnmapped d.hw.cards

abbrev pub IsStarted : Dmd → Type 0
IsStarted d = (d.has_class ≡ true) × (d.has_region ≡ true) × IsMapped d.hw.cards

-- By the log from `l` on, the device numbers and the class are there where `region` and `class` say so,
-- and `n` mappings are.
abbrev pub IsHeld : Os → Log → Bool → Bool → ℕ → Log → Type 0
IsHeld os l region class n l' =
    (regions os l' ≡ regions os l + (if region then 1 else 0))
    × (classes os l' ≡ classes os l + (if class then 1 else 0))
    × (class ≡ true → has_live_class os l' ≡ true)
    × (maps os l' + unmaps l ≡ maps os l + unmaps l' + n)

abbrev pub IsOutcome : Os → Log → Option (ℤ × Dmd × Log) → Type 0
IsOutcome os l none = ⊥
IsOutcome os l (some (r, d, l')) =
    ((is_neg r ≡ true) × IsStopped d × IsHeld os l false false 0 l')
    ⊎ ((r ≡ pos 0) × IsStarted d × IsHeld os l true true (live d.hw.cards) l')

-- What the log says of the data in the middle of the start.
abbrev pub Holds : Os → Log → Dmd → Log → Type 0
Holds os l0 d l = IsHeld os l0 d.has_region d.has_class (live d.hw.cards) l

pub Holds-IsKept :
    (os : Os) (l0 : Log) (d : Dmd) (l l' : Log)
    → Holds os l0 d l
    → IsKept os l l'
    → Holds os l0 d l'
Holds-IsKept os l0 d l l' (a, b, c, e) (f, g, h, i, j) =
    (f ∙ a, g ∙ b, (λ x. h ∙ c x), omega (arith, e, i, j))

-- The calls that end the class and the device numbers.
ended : Dmd → Log → Log
ended d l =
    let l5 : Log = if d.has_class then class_destroy ∷ l else l in
    if d.has_region then unregister_region ∷ l5 else l5

ended-IsHeld :
    (os : Os) (l0 : Log) (d : Dmd) (l : Log)
    → Holds os l0 d l
    → IsHeld os l0 false false (live d.hw.cards) (ended d l)
unfolding ended
ended-IsHeld os l0 d l (a, b, c, e) = elim (Bool-cases d.has_class) [
  | inl f ↦ elim (Bool-cases d.has_region) [
    | inl g ↦ rw (f, g) (ground (arith, a, b, c f, e, f, g))
    | inr g ↦ rw (f, g) (ground (arith, a, b, c f, e, f, g))
  ]
  | inr f ↦ elim (Bool-cases d.has_region) [
    | inl g ↦ rw (f, g) (ground (arith, a, b, e, f, g))
    | inr g ↦ rw (f, g) (ground (arith, a, b, e, f, g))
  ]
]

rest_lem :
    (os : Os) (l0 : Log) (r : ℤ) (d : Dmd) (fs : SifpDrvs) (p : Slots × Log)
    → is_neg r ≡ true
    → Holds os l0 d p.1
    → IsOutcome os l0 (failed r (exit_rest d fs (some p)))
unfolding failed exit_rest ended
rest_lem os l0 r d fs p neg h =
    let l6 = ended d p.1 in
    let (a, b, c, e) = ended-IsHeld os l0 d p.1 h in
    let (un, _, more, same) = dtor_hw_lem os d.hw l6 in
    let (f, g, _) = dtor_hw-KeepsClass os d.hw l6 in
    inl (neg, (refl, refl, un), (f ∙ a, g ∙ b, (λ x. absurd (cc)), omega (arith, e, more, same)))

pub fail_lem :
    (os : Os) (l0 : Log) (r : ℤ) (d : Dmd) (l : Log)
    → is_neg r ≡ true
    → IsStoppable os d.slot_table
    → Holds os l0 d l
    → IsOutcome os l0 (fail r d l)
unfolding fail dmd_exit
fail_lem os l0 r d l neg ok h =
    let (fs, l1) = exit_all mid_2_slot d.sifps l in
    let l2 = sys_func_exit (pos 1) (regs_exit (pos 2) l1) in
    let (p, stops, kept) = ok l2 in
    subst (λ z. IsOutcome os l0 (failed r (exit_rest d fs z))) (sym stops)
      (rest_lem os l0 r d fs p neg (
        Holds-IsKept os l0 d l p.1 h
          (Kept_trans os l l2 p.1 (exit_files-IsKept os d.sifps l) kept)))
