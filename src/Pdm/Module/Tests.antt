-- ===== src/Pdm/Module/Tests.antt =====
-- Examples of starts of the module.
use linux_drv.Prelude.{[], false, negsuc, pos, refl, ◌∷◌}
use linux_drv.Kernel.{Os, class_create, ioremap}
use linux_drv.Pdm.FastPath.Device.{no_drv}
use linux_drv.Pdm.Module.Failing.{IsOutcome}
use linux_drv.Pdm.Module.Outcome.{dmd_init_lem}
use linux_drv.Pdm.Module.Start.{Dmd, dmd_init}
use linux_drv.Pdm.Regs.Hw.{initial_hw}
use linux_drv.Pdm.Slots.State.{null_vsn}

abbrev refuse_class : Os
refuse_class l class_create = negsuc 11
refuse_class l (ioremap k) = pos 4096
refuse_class l _ = pos 0

abbrev loaded : Dmd
loaded = record {
  hw = initial_hw;
  slot_table = record { types = []; vsns = []; slots = [] };
  sys = record { m_slot = 0; hrm_offline_int = 0; has_device = false };
  raw = record { m_size = 0; f_pos = 0 };
  sifps = no_drv ∷ no_drv ∷ [];
  has_class = false;
  has_region = false;
}

dmd_init_lem_example : IsOutcome refuse_class [] (dmd_init refuse_class 1 2 null_vsn loaded [])
dmd_init_lem_example =
    dmd_init_lem refuse_class 1 2 null_vsn loaded [] (λ l e. cc e) (refl, refl, (refl, (refl, tt)))
