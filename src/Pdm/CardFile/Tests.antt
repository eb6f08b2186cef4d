-- ===== src/Pdm/CardFile/Tests.antt =====
-- Tests and examples of the device file.
use linux_drv.Prelude.{
  [], arith, get_or, length, pos, refl, true, ℕ, ◌%◌, ◌*◌, ◌+◌, ◌<◌, ◌∷◌, ◌≡◌, ◌≢◌, ◌⊎◌,
}
use linux_drv.Ioctl.{Codec}
use linux_drv.Kernel.{Os, enoioctlcmd}
use linux_drv.Pdm.CardFile.Control.{locked_fun, nothing_to_read, pdm_ioctl_lem}
use linux_drv.Pdm.CardFile.OnOff.{IoctlArg, nothing, pdm_ioctl, pdm_reqs}
use linux_drv.Pdm.CardFile.Queue.{PrefixRead, pdm_read_lem}
use linux_drv.Pdm.CardFile.ReadPoll.{pdm_poll, pdm_read, poll_out, read_loop}
use linux_drv.Pdm.CardFile.State.{PdmDrv, init_cards}
use linux_drv.Pdm.Slots.State.{ctor_mng_info}

abbrev fine : Os
fine l c = pos 0

abbrev two_waiting : PdmDrv
two_waiting = record {
  m_slot = 0;
  cards = init_cards 0 2;
  hd_data = [];
  hd_read = 1 ∷ 0 ∷ [];
  has_device = true;
}

abbrev fresh : PdmDrv
fresh = record two_waiting { hd_data = 0 ∷ 1 ∷ []; hd_read = [] }

-- A coding that keeps the number in the low byte.
abbrev plain : Codec
plain = record {
  ioc = λ d s t n. (d * 65536 + s * 256 + t) * 256 + n;
  nr_of = λ c. c % 256;
  nr_of-ioc = λ d s t n lt. omega (arith, lt);
}

abbrev one_card : IoctlArg
one_card = record { arg_slot = pos 1; arg_type = pos 1 }

pdm_read_lem_example : (k : ℕ) × PrefixRead fine 12 0 two_waiting [] k
pdm_read_lem_example = pdm_read_lem fine 12 0 two_waiting []

reads_one : (pdm_read fine 12 0 two_waiting []).1.hd_read ≡ 0 ∷ []
unfolding pdm_read read_loop init_cards
reads_one = refl

pdm_ioctl_lem_example :
    ((k : ℕ)
      → k < length (pdm_reqs plain)
      → plain.ioc 2 4 b'P' 4 ≡ get_or (pdm_reqs plain) k 0
      → pdm_ioctl plain fine [] (plain.ioc 2 4 b'P' 4) one_card fresh ctor_mng_info []
        ≡ locked_fun fine [] k one_card fresh ctor_mng_info [])
    × (((k : ℕ) → k < length (pdm_reqs plain) → plain.ioc 2 4 b'P' 4 ≢ get_or (pdm_reqs plain) k 0)
        → pdm_ioctl plain fine [] (plain.ioc 2 4 b'P' 4) one_card fresh ctor_mng_info []
          ≡ (enoioctlcmd, nothing, fresh, ctor_mng_info, []))
pdm_ioctl_lem_example =
    pdm_ioctl_lem plain fine [] (plain.ioc 2 4 b'P' 4) one_card fresh ctor_mng_info []

nothing_to_read_example : (pdm_poll fresh ≡ 0) ⊎ (pdm_poll fresh ≡ poll_out)
nothing_to_read_example = (nothing_to_read plain fine [] fresh ctor_mng_info [] refl).0

-- "e1 mio r"
abbrev mio_comes : ℕ → ℕ
mio_comes k = get_or (b'e' ∷ b'1' ∷ b' ' ∷ b'm' ∷ b'i' ∷ b'o' ∷ b' ' ∷ b'r' ∷ []) k 0
