-- ===== src/Pdm/Module/Start.antt =====
-- `dmd_init`, `dmd_exit` and `pdm_drv_isr`. The start of the interrupt, in
-- pdm/driver/src/pdm_irq_hdl.c, answers 0 and its end does nothing in the build that the file selects.
-- The callbacks of the card type PDM, which are pdm_drv_main_init and pdm_drv_main_exit, are function
-- pointers here as everywhere in Pdm/Slots.
use linux_drv.Prelude.{
  Bool, List, Option, false, if◌then◌else◌, is_neg, ltb, none, pos, some, true, ℕ, ℤ, ◌∷◌,
}
use linux_drv.Kernel.{Log, Os, alloc_region, class_create, class_destroy, efault, unregister_region}
use linux_drv.Pdm.FastPath.Device.{SifpDrvs}
use linux_drv.Pdm.FastPath.Start.{exit_all, init_all, mid_2_slot}
use linux_drv.Pdm.Regs.Hw.{Hw, ctor_hw, dtor_hw}
use linux_drv.Pdm.Regs.RegsInfo.{RegsFile, regs_exit, regs_init}
use linux_drv.Pdm.Slots.Cards.{card_offline, card_online}
use linux_drv.Pdm.Slots.Isr.{handle_slot_int}
use linux_drv.Pdm.Slots.Registry.{reg_online_offline_cb, unreg_online_offline_cb}
use linux_drv.Pdm.Slots.State.{DrvVsnInfo, Slots, ctor_mng_info}
use linux_drv.Pdm.SysFunc.Device.{SysFunc, sys_func_exit, sys_func_init}

-- The static data of the module's files. `has_class` and `has_region` are the tests of
-- `g_pPdmDrvClass` and `g_pdmDevID`.
pub record Dmd : Type 0 where
  pub hw : Hw
  pub slot_table : Slots
  pub sys : SysFunc
  pub raw : RegsFile
  pub sifps : SifpDrvs
  pub has_class : Bool
  pub has_region : Bool

-- The end of the card and of its type; `none` is a call of a null function pointer.
unfoldable pub stop_slots : Slots → Log → Option (Slots × Log)
stop_slots s l = let (s1, l1) = card_offline (pos 0) s l in unreg_online_offline_cb (pos 0) s1 l1

-- `dmd_exit` behind `pdm_unreg_online_offline_cb`, and with the slot files ended.
unfoldable pub exit_rest : Dmd → SifpDrvs → Option (Slots × Log) → Option (Dmd × Log)
exit_rest d sifps' none = none
exit_rest d sifps' (some (s, l4)) =
    let l5 : Log = if d.has_class then class_destroy ∷ l4 else l4 in
    let l6 : Log = if d.has_region then unregister_region ∷ l5 else l5 in
    let (hw', l7) = dtor_hw d.hw l6 in
    some (
      record d { hw = hw'; slot_table = s; sifps = sifps'; has_class = false; has_region = false },
      l7,
    )

-- `dmd_exit`
unfoldable pub dmd_exit : Dmd → Log → Option (Dmd × Log)
dmd_exit d l =
    let (sifps', l1) = exit_all mid_2_slot d.sifps l in
    exit_rest d sifps' (stop_slots d.slot_table (sys_func_exit (pos 1) (regs_exit (pos 2) l1)))

-- A failed step of `dmd_init`: it answers `r` after `dmd_exit`.
unfoldable pub failed : ℤ → Option (Dmd × Log) → Option (ℤ × Dmd × Log)
failed r none = none
failed r (some (d, l)) = some (r, d, l)

unfoldable pub fail : ℤ → Dmd → Log → Option (ℤ × Dmd × Log)
fail r d l = failed r (dmd_exit d l)

-- The steps 6 to 9 of `dmd_init`.
unfoldable pub start_files : Os → Dmd → Log → Option (ℤ × Dmd × Log)
start_files os d l =
    let (r1, f, l1) = sys_func_init os (pos 1) d.sys l in
    let d1 : Dmd = record d { sys = f } in
    let (r2, g, l2) = regs_init os (pos 2) d1.raw l1 in
    let d2 : Dmd = record d1 { raw = g } in
    let (r3, h, l3) = init_all os mid_2_slot d2.sifps l2 in
    let d3 : Dmd = record d2 { sifps = h } in
    if is_neg r1
    then fail r1 d1 l1
    else if is_neg r2
    then fail r2 d2 l2
    else if is_neg r3
    then fail r3 d3 l3
    else some (pos 0, d3, l3)

-- The steps 4 and 5, and the rest.
unfoldable pub start_card : Os → ℕ → ℕ → DrvVsnInfo → Dmd → Log → Option (ℤ × Dmd × Log)
start_card os on off vsn d l =
    let (r1, s1, l1) =
      reg_online_offline_cb os d.hw.chips (pos 0) (some on) (some off) vsn d.slot_table l in
    let (r2, s2, l2) = card_online os d.hw.chips (pos 0) (pos 0) s1 l1 in
    if is_neg r1
    then fail r1 (record d { slot_table = s1 }) l1
    else if is_neg r2
    then fail r2 (record d { slot_table = s2 }) l2
    else start_files os (record d { slot_table = s2 }) l2

-- `dmd_init`: its result, or none where it calls a null function pointer.
unfoldable pub dmd_init : Os → ℕ → ℕ → DrvVsnInfo → Dmd → Log → Option (ℤ × Dmd × Log)
dmd_init os on off vsn d l =
    let (r1, hw', l1) = ctor_hw os d.hw l in
    let d1 : Dmd = record d { hw = hw'; slot_table = ctor_mng_info } in
    let region = os l1 alloc_region in
    let l2 = alloc_region ∷ l1 in
    let cls = os l2 class_create in
    let l3 = class_create ∷ l2 in
    if is_neg r1
    then some (r1, record d { hw = hw' }, l1)
    else if is_neg region
    then fail region (record d1 { has_region = false }) l2
    else if is_neg cls
    then fail efault (record d1 { has_region = true; has_class = false }) l3
    else start_card os on off vsn (record d1 { has_region = true; has_class = true }) l3

-- `pdm_drv_isr`: 1 is IRQ_HANDLED and 0 IRQ_NONE. `int_bits` is the interrupt register and `bmps` the
-- bit of each slot.
unfoldable pub pdm_drv_isr : ℕ → List ℕ → Slots → Log → ℕ × Slots × Log
pdm_drv_isr int_bits bmps s l =
    let (ret, s', l') = handle_slot_int int_bits bmps s l in ((if ltb 0 ret then 1 else 0), s', l')
