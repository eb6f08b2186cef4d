-- ===== src/Frame/Module.antt =====
-- The start and the end of a card's driver: `udf_drv_mod_init` and `udf_drv_mod_exit` of udf_drv.c.
-- The callbacks `udf_online` and `udf_offline` are function pointers here, as everywhere in Pdm/Slots.
-- `none` is a call of a null function pointer.
use linux_drv.Prelude.{
  Option, false, if◌then◌else◌, is_neg, leb, none, replicate, some, true, ℕ, ℤ, ◌+◌, ◌-◌, ◌∷◌,
}
use linux_drv.Card.{etin_slot_max}
use linux_drv.Frame.Device.{is_os_ptr_invalid}
use linux_drv.Frame.State.{Udf}
use linux_drv.Kernel.{Log, Os, alloc_region, class_create, class_destroy, enomem, unregister_region}
use linux_drv.Pdm.Slots.Registry.{reg_online_offline_cb, unreg_online_offline_cb}
use linux_drv.Pdm.Slots.State.{DrvVsnInfo, Slots}

-- The steps 2 and 1 of `udf_drv_mod_exit`.
unfoldable pub exit_class : Udf → Log → Udf × Log
exit_class u l =
    if leb 2 u.init_step
    then (record u { has_class = false; init_step = u.init_step - 1 }, class_destroy ∷ l)
    else (u, l)

unfoldable pub exit_region : Udf → Log → Udf × Log
exit_region u l =
    if leb 1 u.init_step
    then (record u { init_step = u.init_step - 1 }, unregister_region ∷ l)
    else (u, l)

unfoldable pub exit_files : Udf → Log → Udf × Log
exit_files u l = let (u1, l1) = exit_class u l in exit_region u1 l1

-- What is left of it once the callbacks are unregistered.
unfoldable pub exit_unregistered : Udf → Option (Slots × Log) → Option (Udf × Log)
exit_unregistered u none = none
exit_unregistered u (some (s, l)) =
    some (exit_files (record u { pdm = s; init_step = u.init_step - 1 }) l)

-- `udf_drv_mod_exit` of a driver for the card type `ct`.
unfoldable pub mod_exit : ℤ → Udf → Log → Option (Udf × Log)
mod_exit ct u l =
    if leb 3 u.init_step
    then exit_unregistered u (unreg_online_offline_cb ct u.pdm l)
    else some (exit_files u l)

-- A failed step: the answer is `r` after `udf_drv_mod_exit`.
unfoldable pub mod_failed : ℤ → Option (Udf × Log) → Option (ℤ × Udf × Log)
mod_failed r none = none
mod_failed r (some (u, l)) = some (r, u, l)

-- `udf_drv_mod_init`
unfoldable pub mod_init : Os → ℤ → ℕ → ℕ → DrvVsnInfo → Udf → Log → Option (ℤ × Udf × Log)
mod_init os ct on off vsn u l =
    let u0 : Udf = record u { dev_set = replicate etin_slot_max none } in
    let region = os l alloc_region in
    let l1 = alloc_region ∷ l in
    let u1 : Udf = record u0 { init_step = u.init_step + 1 } in
    let cls = os l1 class_create in
    let l2 = class_create ∷ l1 in
    let u2 : Udf = record u1 { has_class = true; init_step = u.init_step + 2 } in
    let (r, s, l3) = reg_online_offline_cb os u.hw.chips ct (some on) (some off) vsn u.pdm l2 in
    let u3 : Udf = record u2 { pdm = s } in
    if is_neg region
    then mod_failed region (mod_exit ct u0 l1)
    else if is_os_ptr_invalid cls
    then mod_failed enomem (mod_exit ct (record u1 { has_class = false }) l2)
    else if is_neg r
    then mod_failed r (mod_exit ct u3 l3)
    else some (r, record u3 { init_step = u.init_step + 3 }, l3)
