-- ===== src/Pdm/FastPath/Tests.antt =====
-- Tests and examples of the slot files.
use linux_drv.Prelude.{[], arith, get_or, negsuc, pos, refl, some, ◌%◌, ◌*◌, ◌+◌, ◌∷◌, ◌≡◌}
use linux_drv.Ioctl.{Codec}
use linux_drv.Kernel.{Os, callback, cdev_del, device_create, enosys, lock, sifp, unlock}
use linux_drv.Pdm.FastPath.Balance.{init_all_lem}
use linux_drv.Pdm.FastPath.Callbacks.{sifp_unreg-sifp_reg}
use linux_drv.Pdm.FastPath.Device.{
  SifpDrvs, SifpInfo, call_cb, no_drv, null_info, sifp_ioctl, sifp_reg, sifp_reqs, sifp_unreg,
}
use linux_drv.Pdm.FastPath.Start.{exit_all, init_all, mid_2_slot}

abbrev plain : Codec
plain = record {
  ioc = λ d s t n. (d * 65536 + s * 256 + t) * 256 + n;
  nr_of = λ c. c % 256;
  nr_of-ioc = λ d s t n lt. omega (arith, lt);
}

abbrev seven : Os
seven l c = pos 7

abbrev refuse_device : Os
refuse_device l (device_create k) = negsuc 0
refuse_device l _ = pos 0

abbrev two_slots : SifpDrvs
two_slots = no_drv ∷ no_drv ∷ []

-- A slot with a callback for the red LED and one for reads.
abbrev red_only : SifpInfo
red_only = record null_info { read_cb = some 70; set_led_red_cb = some 80; set_led_arg = 5 }

answers : call_cb seven (some 80) 5 9 [] ≡ (pos 7, callback 80 5 9 ∷ [])
unfolding call_cb
answers = refl

sifp_unreg-sifp_reg_example :
    sifp_ioctl plain seven 1
      (get_or (sifp_reqs plain) 2 0)
      9
      (sifp_unreg (pos 1) (sifp_reg (pos 1) red_only two_slots []).1 []).0
      []
    ≡ (enosys, unlock (sifp 1) ∷ lock (sifp 1) ∷ [])
sifp_unreg-sifp_reg_example =
    (sifp_unreg-sifp_reg plain seven red_only two_slots 2 9 0 [] [] [] (omega arith)
      (omega arith)).1

init_all_lem_example :
    (exit_all mid_2_slot
      (init_all refuse_device mid_2_slot two_slots []).1
      (init_all refuse_device mid_2_slot two_slots []).2).1
    ≡ cdev_del 3 ∷ (init_all refuse_device mid_2_slot two_slots []).2
init_all_lem_example =
    (((init_all_lem refuse_device two_slots [] (omega arith) refl).1 refl).0 refl).3
