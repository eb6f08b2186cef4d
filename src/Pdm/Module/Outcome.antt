-- ===== src/Pdm/Module/Outcome.antt =====
-- How a start of the module ends.
use linux_drv.Prelude.{
  arith, is_pos, ◌∙◌, ◌≢◌, zero, suc, negsuc, Bool-cases, false, inl, inr, is_neg, pos, refl, some,
  sym, true, ℕ, ℤ, ◌∷◌, ◌≡◌,
}
use mathlib.Core.Path.{subst}
use linux_drv.Kernel.{Log, Os, alloc_region, class_create, efault}
use linux_drv.Pdm.FastPath.Start.{init_all, mid_2_slot}
use linux_drv.Pdm.Module.Kept.{
  IsKept, card_online-IsKept, init_all-IsKept, regs_init-IsKept, sys_func_init-IsKept,
}
use linux_drv.Pdm.Module.Stoppable.{
  IsStoppable, card_online-IsStoppable, ctor_mng_info-IsStoppable, reg-IsKept,
  registered-IsStoppable,
}
use linux_drv.Pdm.Module.Start.{Dmd, dmd_init, start_card, start_files}
use linux_drv.Pdm.Regs.Hw.{ctor_hw}
use linux_drv.Pdm.Regs.Mapping.{ctor_hw-KeepsClass, live, ctor_hw_lem}
use linux_drv.Pdm.Regs.RegsInfo.{regs_init}
use linux_drv.Pdm.Slots.Cards.{card_online}
use linux_drv.Pdm.Slots.Registration.{reg_lem, registered}
use linux_drv.Pdm.Slots.Registry.{reg_online_offline_cb}
use linux_drv.Pdm.Slots.State.{DrvVsnInfo, ctor_mng_info}
use linux_drv.Pdm.SysFunc.Device.{sys_func_init}
use linux_drv.Pdm.Module.Failing.{
  Holds, Holds-IsKept, IsHeld, IsOutcome, IsStarted, IsStopped, fail_lem,
}

-- class_create answers a class or an error pointer, never null.
abbrev pub NeverNull : Os → Type 0
NeverNull os = (l : Log) → os l class_create ≢ pos 0

start_files_lem :
    (os : Os) (l0 : Log) (d : Dmd) (l : Log)
    → IsStoppable os d.slot_table
    → IsStarted d
    → Holds os l0 d l
    → IsOutcome os l0 (start_files os d l)
unfolding start_files
start_files_lem os l0 d l ok st h =
    let (r1, f, l1) = sys_func_init os (pos 1) d.sys l in
    let d1 : Dmd = record d { sys = f } in
    let (r2, g, l2) = regs_init os (pos 2) d.raw l1 in
    let d2 : Dmd = record d1 { raw = g } in
    let (r3, k, l3) = init_all os mid_2_slot d.sifps l2 in
    let d3 : Dmd = record d2 { sifps = k } in
    let h1 : Holds os l0 d1 l1 = Holds-IsKept os l0 d l l1 h (sys_func_init-IsKept os d.sys l) in
    let h2 : Holds os l0 d2 l2 = Holds-IsKept os l0 d l1 l2 h1 (regs_init-IsKept os d.raw l1) in
    let h3 : Holds os l0 d3 l3 = Holds-IsKept os l0 d l2 l3 h2 (init_all-IsKept os d.sifps l2) in
    elim (Bool-cases (is_neg r1)) [
      | inl e1 ↦ rw e1 (fail_lem os l0 r1 d1 l1 e1 ok h1)
      | inr e1 ↦ elim (Bool-cases (is_neg r2)) [
        | inl e2 ↦ rw (e1, e2) (fail_lem os l0 r2 d2 l2 e2 ok h2)
        | inr e2 ↦ elim (Bool-cases (is_neg r3)) [
          | inl e3 ↦ rw (e1, e2, e3) (fail_lem os l0 r3 d3 l3 e3 ok h3)
          | inr e3 ↦
              rw (e1, e2, e3)
                (inr (
                  refl,
                  st,
                  subst (λ b. IsHeld os l0 b true (live d.hw.cards) l3) st.1
                      (subst (λ b. IsHeld os l0 d.has_region b (live d.hw.cards) l3) st.0 h3),
                ))
        ]
      ]
    ]

start_card_lem :
    (os : Os) (l0 : Log) (on off : ℕ) (vsn : DrvVsnInfo) (d : Dmd) (l : Log)
    → d.slot_table ≡ ctor_mng_info
    → IsStarted d
    → Holds os l0 d l
    → IsOutcome os l0 (start_card os on off vsn d l)
unfolding start_card
start_card_lem os l0 on off vsn d l fresh st h =
    let (r1, s1, l1) =
      reg_online_offline_cb os d.hw.chips (pos 0) (some on) (some off) vsn d.slot_table l in
    let (r2, s2, l2) = card_online os d.hw.chips (pos 0) (pos 0) s1 l1 in
    let reg : s1 ≡ registered 0 on off vsn ctor_mng_info =
      subst
        (λ z.
          (reg_online_offline_cb os d.hw.chips (pos 0) (some on) (some off) vsn z l).1
          ≡ registered 0 on off vsn ctor_mng_info)
        (sym fresh) (reg_lem os d.hw.chips (pos 0) on off vsn ctor_mng_info l refl refl).0 in
    let kept : IsKept os l l1 =
      subst
        (λ z.
          IsKept os l (reg_online_offline_cb os d.hw.chips (pos 0) (some on) (some off) vsn z l).2)
        (sym fresh) (reg-IsKept os d.hw.chips on off vsn l) in
    let h1 : Holds os l0 d l1 = Holds-IsKept os l0 d l l1 h kept in
    let h2 : Holds os l0 d l2 =
      Holds-IsKept os l0 d l1 l2 h1 (card_online-IsKept os d.hw.chips s1 l1) in
    let ok : IsStoppable os s2 =
      subst (λ z. IsStoppable os (card_online os d.hw.chips (pos 0) (pos 0) z l1).1) (sym reg)
        (card_online-IsStoppable os d.hw.chips on off vsn l1) in
    elim (Bool-cases (is_neg r1)) [
      | inl e1 ↦ rw e1 (
          fail_lem os l0 r1 (record d { slot_table = s1 }) l1 e1
            (subst (IsStoppable os) (sym reg) (registered-IsStoppable os on off vsn)) h1)
      | inr e1 ↦ elim (Bool-cases (is_neg r2)) [
        | inl e2 ↦ rw (e1, e2) (fail_lem os l0 r2 (record d { slot_table = s2 }) l2 e2 ok h2)
        | inr e2 ↦ rw (e1, e2) (start_files_lem os l0 (record d { slot_table = s2 }) l2 ok st h2)
      ]
    ]

not_null-is_pos : (a : ℤ) → a ≢ pos 0 → is_neg a ≡ false → is_pos a ≡ true
not_null-is_pos (pos zero) ne e = absurd (ne refl)
not_null-is_pos (pos (suc n)) ne e = ground arith
not_null-is_pos (negsuc n) ne e = absurd (ground (arith, e))

-- Where class_create never answers null: the start of the module never calls a null function pointer.
-- Entered with nothing taken, it ends in one of two ways: it answers 0 and has the device class, the
-- device numbers and every card mapped; or it answers an error, whichever step failed, and no class, no
-- device numbers and no mapping are left. The log says the same: from the start on, one range of device
-- numbers and one class were taken and as many cards were mapped as stand mapped, and after an error as
-- many ranges, classes and mappings were given back as were taken.
pub dmd_init_lem :
    (os : Os) (on off : ℕ) (vsn : DrvVsnInfo) (d : Dmd) (l : Log)
    → NeverNull os
    → IsStopped d
    → IsOutcome os l (dmd_init os on off vsn d l)
unfolding dmd_init
dmd_init_lem os on off vsn d l full st =
    let (r1, hw', l1) = ctor_hw os d.hw l in
    let d1 : Dmd = record d { hw = hw'; slot_table = ctor_mng_info } in
    let region = os l1 alloc_region in
    let l2 = alloc_region ∷ l1 in
    let cls = os l2 class_create in
    let l3 = class_create ∷ l2 in
    let (a, b, _) = ctor_hw-KeepsClass os d.hw l in
    elim (ctor_hw_lem os d.hw l st.2) [
      | inl (fine, up, same, more) ↦ rw fine (elim (Bool-cases (is_neg region)) [
        | inl e ↦ rw e (
            fail_lem os l region (record d1 { has_region = false }) l2 e
              (ctor_mng_info-IsStoppable os)
              (
                ground (arith, a, e),
                ground (arith, b, st.0),
                (λ x. absurd (ground (arith, x, st.0))),
                omega (arith, same, more),
              ))
        | inr e ↦ elim (Bool-cases (is_neg cls)) [
          | inl f ↦
              rw (e, f)
                (fail_lem os l efault (record d1 { has_region = true; has_class = false }) l3 refl
                  (ctor_mng_info-IsStoppable os)
                  (
                    ground (arith, a, e),
                    ground (arith, b, f),
                    (λ x. absurd (cc)),
                    omega (arith, same, more),
                  ))
          | inr f ↦
              let made = not_null-is_pos cls (full l2) f in
              rw (e, f)
                (start_card_lem os l on off vsn (record d1 { has_region = true; has_class = true })
                  l3 refl (refl, refl, up)
                  (
                    ground (arith, a, e),
                    ground (arith, b, made),
                    (λ x. made),
                    omega (arith, same, more),
                  ))
        ]
      ])
      | inr (bad, down, _, even) ↦ rw bad (
          inl (
            refl,
            (st.0, st.1, down),
            (a ∙ omega arith, b ∙ omega arith, (λ x. absurd (cc)), omega (arith, even)),
          ))
    ]
