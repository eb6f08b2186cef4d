-- ===== src/Frame/State.antt =====
-- The static data of a card's driver, of udf_drv.c and file_op.c, with that of the PDM driver, which
-- it calls.
use linux_drv.Prelude.{Bool, List, Option, get_or, is_pos, none, set, ℕ, ℤ}
use linux_drv.Kernel.{Log, Os, kmalloc}
use linux_drv.Pdm.FastPath.Device.{SifpDrvs}
use linux_drv.Pdm.Regs.Hw.{Hw}
use linux_drv.Pdm.Slots.State.{Slots}

-- The data of a bottom half, `SUDF_KDRV_DATA`, and of a top half, `SUDF_DRV_DATA`. The null address
-- is 0.
pub record Bottom : Type 0 where
  pub slot_no : ℕ
  pub hw_addr : ℕ

pub record Top : Type 0 where
  pub slot_id : ℕ
  pub bh_rep : Bottom
  pub hw_addr : ℕ

-- `udf_drv_t`: `m_device` is what device_create answered, negative for an error pointer; `can_read`
-- is the bit BIT_CAN_READ.
pub record UdfDrv : Type 0 where
  pub m_device : ℤ
  pub can_read : Bool
  pub m_data : Option Top

-- `g_udf_dev_set`, `g_udf_hw_addr`, `s_init_step` and `s_pUdfClass`; then the PDM driver's data.
pub record Udf : Type 0 where
  pub dev_set : List (Option UdfDrv)
  pub hw_addrs : List ℕ
  pub init_step : ℕ
  pub has_class : Bool
  pub hw : Hw
  pub pdm : Slots
  pub sifps : SifpDrvs

abbrev pub dev_at : Udf → ℕ → Option UdfDrv
dev_at u i = get_or u.dev_set i none

abbrev pub put_dev : ℕ → Option UdfDrv → Udf → Udf
put_dev i d u = record u { dev_set = set u.dev_set i d }

abbrev pub put_hw_addr : ℕ → ℕ → Udf → Udf
put_hw_addr i a u = record u { hw_addrs = set u.hw_addrs i a }

-- `ukc_malloc` found memory.
abbrev pub malloced : Os → Log → Bool
malloced os l = is_pos (os l kmalloc)
