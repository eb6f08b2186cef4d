-- ===== src/Frame/Tests.antt =====
-- The driver frame at concrete inputs.
use linux_drv.Prelude.{
  ◌*◌, ◌%◌, [], arith, false, none, pos, refl, some, true, ◌<◌, ◌⊎◌, ℕ, ℤ, ◌∷◌, ◌≡◌, ◌+◌,
}
use linux_drv.Card.{etindev_mio}
use linux_drv.Frame.Cards.{ComesIn, udf_online_lem}
use linux_drv.Frame.Closing.{udf_release-udf_open}
use linux_drv.Frame.Control.{GivesBack, Controls, udf_ioctl_lem}
use linux_drv.Frame.Device.{main_init, online_made, udf_offline, udf_online}
use linux_drv.Frame.Halves.{bh_online, bh_open, slot_hw_base_addr, th_open, th_opened}
use linux_drv.Frame.File.{
  Extra, FunOut, udf_ioctl, udf_reqs, Opened, Vma, open_dev, open_requested, udf_mmap, udf_open,
  udf_poll, udf_release,
}
use linux_drv.Frame.Leaving.{IsEmptied, udf_offline-udf_online}
use linux_drv.Frame.Mapping.{Within, udf_mmap_lem}
use linux_drv.Frame.Memory.{live}
use linux_drv.Frame.Module.{mod_exit, mod_init}
use linux_drv.Frame.Opening.{OpensOrNot, udf_open_lem}
use linux_drv.Frame.Reading.{IsReadable, file_ops, interrupt, read, udf_poll_lem}
use linux_drv.Frame.Starting.{IsUnloaded, Starts, mod_exit-mod_init, mod_init_lem}
use linux_drv.Frame.State.{Top, Udf, UdfDrv}
use linux_drv.Ioctl.{Codec}
use linux_drv.Kernel.{
  Log, Os, alloc_region, bh_ctor, class_create, efault, einval, held, kmalloc, lock, remap_pfn,
  th_ctor, udf, unlock,
}
use linux_drv.Pdm.FastPath.Device.{SifpInfo, no_drv, null_info, sifp_reg}
use linux_drv.Pdm.Regs.Hw.{get_addr_space_size, get_pfn}
use linux_drv.Pdm.Slots.Effects.{quiet}
use linux_drv.Pdm.Slots.Inv.{IsValid, ctor_mng_info-IsValid}
use linux_drv.Pdm.Slots.Irq.{disable_int, request_irq}
use linux_drv.Pdm.Slots.Registration.{registered}
use linux_drv.Pdm.Slots.Registry.{reg_checked, reg_each, reg_online_offline_cb, reg_visit}
use linux_drv.Pdm.Slots.State.{DrvVsnInfo, ctor_mng_info, fresh_slot, put_slot, slot_at}

-- Every call answers 1.
abbrev one : Os
one l c = pos 1

-- The fast path's callbacks of a card at an address.
abbrev paths : ℕ → SifpInfo
paths base = record null_info { read_cb = some 9; read_arg = base }

abbrev vsn : DrvVsnInfo
vsn = record { src_vsn = some 3; udf_vsn = none }

-- A driver without cards that is not loaded.
abbrev empty : Udf
empty = record {
  dev_set = none ∷ none ∷ [];
  hw_addrs = 0 ∷ 0 ∷ [];
  init_step = 0;
  has_class = false;
  hw = record {
    cards =
        record { phy_addr = 0; addr_space = 0; vir_addr = 0 }
        ∷ record { phy_addr = 8192; addr_space = 16384; vir_addr = 64 }
        ∷ [];
    chips = 0 ∷ 64 ∷ [];
    pdm_chip = 0;
  };
  pdm = ctor_mng_info;
  sifps = no_drv ∷ no_drv ∷ [];
}

abbrev closed : UdfDrv
closed = record { m_device = pos 1; can_read = false; m_data = none }

abbrev half : Top
half = record { slot_id = 1; bh_rep = record { slot_no = 1; hw_addr = 64 }; hw_addr = 64 }

abbrev opened : UdfDrv
opened = record closed { m_data = some half }

-- A card of the driver sits in the slot SELF; its file is closed, or it is open.
abbrev plugged : Udf
plugged = record empty {
  dev_set = none ∷ some closed ∷ [];
  hw_addrs = 0 ∷ 64 ∷ [];
  pdm = record ctor_mng_info {
    slots = fresh_slot 0 ∷ record (fresh_slot 1) { type_info = some 1 } ∷ [];
  };
}

abbrev in_use : Udf
in_use = record plugged { dev_set = none ∷ some opened ∷ [] }

plugged-IsValid : IsValid plugged.pdm
plugged-IsValid = ground arith

udf_open_lem_example :
    (o : Opened) × (udf_open one 5 1 false plugged [] ≡ some o)
    × OpensOrNot one 5 1 closed plugged [] o
udf_open_lem_example = udf_open_lem one 5 1 closed plugged [] refl refl refl

-- What opening the file leaves.
abbrev open_file : Opened
open_file = (
  pos 0,
  true,
  record in_use {
    pdm = put_slot plugged.pdm 1 (record (slot_at plugged.pdm 1) { isr_arg = 1; isr_cb = some 5 });
  },
  unlock (udf 1) ∷ th_ctor 1 ∷ bh_ctor 1 ∷ kmalloc ∷ kmalloc ∷ lock (udf 1) ∷ [],
)

open_test : udf_open one 5 1 false plugged [] ≡ some open_file
unfolding udf_open open_dev open_requested th_open th_opened bh_open slot_hw_base_addr request_irq
open_test = refl

udf_release-udf_open_example :
    (c : Opened) × (udf_release 1 open_file.2 open_file.3 ≡ some c)
    × (c.0 ≡ pos 0)
    × (c.1 ≡ false)
    × (c.2.dev_set ≡ plugged.dev_set)
    × (c.2.pdm ≡ put_slot plugged.pdm 1 (quiet (slot_at plugged.pdm 1)))
    × (live one c.3 ≡ 0)
    × (held c.3 ≡ some [])
udf_release-udf_open_example =
    udf_release-udf_open one 5 1 closed plugged [] open_file refl refl (omega arith) plugged-IsValid
      refl open_test refl

udf_online_lem_example : ComesIn one paths 1 64 empty [] (udf_online one paths (pos 1) 64 empty [])
udf_online_lem_example = udf_online_lem one paths 1 64 empty [] (refl, refl, omega arith, refl)

-- The slot PDM has no fast path: the answer is -EINVAL although the card is in.
pdm_online_test : (udf_online one paths (pos 0) 64 empty []).0 ≡ einval
unfolding udf_online online_made main_init bh_online slot_hw_base_addr sifp_reg
pdm_online_test = refl

udf_offline-udf_online_example :
    let (_, u1, l1) = udf_online one paths (pos 1) 64 empty [] in
    let (u', l') = udf_offline (pos 1) u1 l1 in IsEmptied 1 empty u' × (live one l' ≡ 0)
udf_offline-udf_online_example =
    udf_offline-udf_online one paths 1 64 empty [] (refl, refl, omega arith, refl) refl
      (omega arith) (omega arith)

mod_init_lem_example :
    (o : ℤ × Udf × Log) × (mod_init one etindev_mio 7 8 vsn empty [] ≡ some o)
    × Starts one 1 7 8 vsn empty.pdm [] o
mod_init_lem_example = mod_init_lem one etindev_mio 7 8 vsn empty [] refl refl refl refl

-- What starting the driver leaves.
abbrev loaded : ℤ × Udf × Log
loaded = (
  pos 0,
  record empty { init_step = 3; has_class = true; pdm = registered 1 7 8 vsn ctor_mng_info },
  (reg_online_offline_cb one (0 ∷ 64 ∷ []) etindev_mio (some 7) (some 8) vsn ctor_mng_info
      (class_create ∷ alloc_region ∷ [])).2,
)

init_test : mod_init one etindev_mio 7 8 vsn empty [] ≡ some loaded
unfolding mod_init reg_online_offline_cb reg_checked reg_each reg_visit
init_test = refl

mod_exit-mod_init_example :
    (u' : Udf) × (l' : Log) × (mod_exit etindev_mio loaded.1 loaded.2 ≡ some (u', l'))
    × IsUnloaded one [] u' l'
    × (u'.pdm ≡ ctor_mng_info)
mod_exit-mod_init_example =
    mod_exit-mod_init one etindev_mio 7 8 vsn empty [] loaded ctor_mng_info-IsValid refl refl refl
      refl init_test refl

udf_poll_lem_example :
    (u' : Udf) × (l' : Log) × (k : Log) × (file_ops one 1
        (interrupt ∷ read ∷ interrupt ∷ [])
        in_use
        []
      ≡ some (u', l'))
    × (udf_poll 1 u' l' ≡ some (true, k))
    × IsReadable 1 half true u'
    × (held k ≡ some [])
udf_poll_lem_example =
    udf_poll_lem one 1 half false (interrupt ∷ read ∷ interrupt ∷ []) in_use []
      (opened, refl, refl, refl, omega arith) refl

-- The second page of the registers, 8192 bytes of it.
abbrev range : Vma
range = record { pgoff = 1; vm_start = 4096; vm_end = 12288 }

udf_mmap_lem_example :
    ((16384 < 12288) × (udf_mmap one 32 1 range plugged [] ≡ some (efault, [])))
    ⊎ (Within 2 16384 3 8192
        × (udf_mmap one 32 1 range plugged [] ≡ some (pos 1, remap_pfn 3 8192 ∷ [])))
unfolding get_pfn get_addr_space_size
udf_mmap_lem_example =
    udf_mmap_lem one 32 1 range closed plugged [] refl refl (omega arith, omega arith, omega arith)

-- An offset of 2 ^ 20 pages wraps to 0 in 32 bits: the pages behind the registers are mapped.
wrap_test :
    udf_mmap one 32 1 (record range { pgoff = 1048576 }) plugged []
    ≡ some (pos 1, remap_pfn 1048578 8192 ∷ [])
unfolding udf_mmap get_pfn get_addr_space_size
wrap_test = refl

-- A coding that keeps the number in the low byte.
abbrev plain : Codec
plain = record {
  ioc = λ d s t n. (d * 65536 + s * 256 + t) * 256 + n;
  nr_of = λ c. c % 256;
  nr_of-ioc = λ d s t n lt. omega (arith, lt);
}

-- Functions of a card that all switch off the interrupt of the slot 1, as the frame lets them.
abbrev switch_off : Extra
switch_off k arg u l =
    let (r, s, l') = disable_int (pos 1) u.pdm l in
    record { ret = r; state = record u { pdm = s }; out = none; log = l' }

switch_off-GivesBack : GivesBack switch_off
unfolding disable_int
switch_off-GivesBack k arg i u l h = ground (arith, h)

-- The third command switches the interrupt of the slot on.
udf_ioctl_lem_example :
    (o : FunOut) × (udf_ioctl plain switch_off 7 [] 1 (plain.ioc 1 4 7 2) 1 in_use [] ≡ some o)
    × (held o.log ≡ some [])
    × Controls switch_off
        (udf_reqs plain 7 [])
        (plain.ioc 1 4 7 2)
        (pos 1)
        1
        in_use
        (lock (udf 1) ∷ [])
        o
udf_ioctl_lem_example =
    udf_ioctl_lem plain switch_off 7 [] 1 (plain.ioc 1 4 7 2) 1 opened half in_use [] tt
      switch_off-GivesBack refl refl refl
