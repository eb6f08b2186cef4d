-- ===== src/Pdm/Module/Kept.antt =====
-- What the steps between the first and the last ones of `dmd_init` leave alone.
use linux_drv.Prelude.{List, arith, pos, ℕ, ◌∙◌, ◌≡◌}
use linux_drv.Kernel.{Log, Os, classes, has_live_class, regions}
use linux_drv.Pdm.FastPath.Device.{SifpDrvs}
use linux_drv.Pdm.FastPath.Balance.{exit_all_once, init_all_once}
use linux_drv.Pdm.FastPath.Start.{exit_all, init_all, mid_2_slot, sifp_exit, sifp_init}
use linux_drv.Pdm.Regs.Mapping.{maps, unmaps}
use linux_drv.Pdm.Regs.RegsInfo.{RegsFile, regs_exit, regs_init}
use linux_drv.Pdm.Slots.Cards.{card_online, online_call, online_empty}
use linux_drv.Pdm.Slots.State.{Slots}
use linux_drv.Pdm.SysFunc.Device.{SysFunc, sys_func_exit, sys_func_init}

-- The device numbers, the class and the mappings are as before.
abbrev pub IsKept : Os → Log → Log → Type 0
IsKept os l l' =
    (regions os l' ≡ regions os l)
    × (classes os l' ≡ classes os l)
    × (has_live_class os l' ≡ has_live_class os l)
    × (maps os l' ≡ maps os l)
    × (unmaps l' ≡ unmaps l)

pub Kept_trans : (os : Os) (l l1 l2 : Log) → IsKept os l l1 → IsKept os l1 l2 → IsKept os l l2
Kept_trans os l l1 l2 (a, b, c, d, e) (f, g, h, i, j) = (f ∙ a, g ∙ b, h ∙ c, i ∙ d, j ∙ e)

pub sys_func_init-IsKept :
    (os : Os) (d : SysFunc) (l : Log) → IsKept os l (sys_func_init os (pos 1) d l).2
unfolding sys_func_init sys_func_exit
sys_func_init-IsKept os d l = ground arith

pub regs_init-IsKept : (os : Os) (d : RegsFile) (l : Log) → IsKept os l (regs_init os (pos 2) d l).2
unfolding regs_init regs_exit
regs_init-IsKept os d l = ground arith

sifp_exit-IsKept : (os : Os) (ds : SifpDrvs) (l : Log) → IsKept os l (sifp_exit (pos 1) ds l).1
unfolding sifp_exit
sifp_exit-IsKept os ds l = ground arith

sifp_init-IsKept : (os : Os) (ds : SifpDrvs) (l : Log) → IsKept os l (sifp_init os (pos 1) 3 ds l).2
unfolding sifp_init sifp_exit
sifp_init-IsKept os ds l = ground arith

pub init_all-IsKept :
    (os : Os) (ds : SifpDrvs) (l : Log) → IsKept os l (init_all os mid_2_slot ds l).2
init_all-IsKept os ds l = rw (init_all_once os ds l) (sifp_init-IsKept os ds l)

-- The files end.
pub exit_files-IsKept :
    (os : Os) (ds : SifpDrvs) (l : Log)
    → IsKept os l (sys_func_exit (pos 1) (regs_exit (pos 2) (exit_all mid_2_slot ds l).1))
unfolding sys_func_exit regs_exit
exit_files-IsKept os ds l = rw (exit_all_once ds l) (sifp_exit-IsKept os ds l)

pub card_online-IsKept :
    (os : Os) (chips : List ℕ) (s : Slots) (l : Log)
    → IsKept os l (card_online os chips (pos 0) (pos 0) s l).2
unfolding card_online online_empty online_call
card_online-IsKept os chips s l = ground arith
