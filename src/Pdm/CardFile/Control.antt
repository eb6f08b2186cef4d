-- ===== src/Pdm/CardFile/Control.antt =====
-- The control commands of the device file.
use linux_drv.Prelude.{
  List, Option-cases, [], arith, false, get_or, inl, inr, length, pos, refl, suc, true, zero, ℕ, ℤ,
  ◌<◌, ◌∷◌, ◌≡◌, ◌≢◌, ◌⊎◌,
}
use linux_drv.Card.{etindev_null, index, is_card_n_null, is_card_type_err, is_slot_err}
use linux_drv.Ioctl.{Codec, IsNumbered, dispatch, dispatch_iff, ioc_read, ioc_write}
use linux_drv.Kernel.{Log, Os, einval, enoioctlcmd, lock, pdm_dev, unlock}
use linux_drv.Pdm.CardFile.OnOff.{
  IoctlArg, IoctlOut, card_on_off_line, nothing, pdm_ioctl, pdm_ioctl_fun, pdm_reqs, pdm_write,
  write_on_off, write_other,
}
use linux_drv.Pdm.CardFile.ReadPoll.{pdm_poll, pdm_read, poll_out, read_loop}
use linux_drv.Pdm.CardFile.State.{PdmDrv}
use linux_drv.Pdm.Slots.Cards.{card_offline, card_online}
use linux_drv.Pdm.Slots.State.{Slots}

-- The codes of PDM_IOC_* stand at their own numbers.
pub pdm_reqs-IsNumbered : (c : Codec) → IsNumbered c.nr_of 0 (pdm_reqs c)
unfolding pdm_reqs
pdm_reqs-IsNumbered c = (
  c.nr_of-ioc ioc_write 4 b'P' 0 (omega arith),
  (
    c.nr_of-ioc ioc_write 4 b'P' 1 (omega arith),
    (
      c.nr_of-ioc ioc_write 8 b'P' 2 (omega arith),
      (
        c.nr_of-ioc ioc_read 8 b'P' 3 (omega arith),
        (c.nr_of-ioc ioc_read 4 b'P' 4 (omega arith), tt),
      ),
    ),
  ),
)

abbrev pub locked_fun :
    Os → List ℕ → ℕ → IoctlArg → PdmDrv → Slots → Log → ℤ × IoctlOut × PdmDrv × Slots × Log
locked_fun os chips k a d s l =
    let (r, out, d', s', l') = pdm_ioctl_fun os chips k a d s (lock pdm_dev ∷ l) in
    (r, out, d', s', unlock pdm_dev ∷ l')

-- pdm_drv_ioctl runs the k-th function for the k-th code of PDM_IOC_*, with the lock of the file around
-- it; for a command that is none of the codes it returns -ENOIOCTLCMD, changes nothing and takes no
-- lock.
pub pdm_ioctl_lem :
    (c : Codec) (os : Os) (chips : List ℕ) (cmd : ℕ) (a : IoctlArg) (d : PdmDrv) (s : Slots)
    (l : Log)
    → ((k : ℕ)
        → k < length (pdm_reqs c)
        → cmd ≡ get_or (pdm_reqs c) k 0
        → pdm_ioctl c os chips cmd a d s l ≡ locked_fun os chips k a d s l)
      × (((k : ℕ) → k < length (pdm_reqs c) → cmd ≢ get_or (pdm_reqs c) k 0)
          → pdm_ioctl c os chips cmd a d s l ≡ (enoioctlcmd, nothing, d, s, l))
unfolding pdm_ioctl pdm_ioctl_fun
pdm_ioctl_lem c os chips cmd a d s l = (
  (λ k lt e.
      rw ((dispatch_iff c.nr_of (pdm_reqs c) cmd k (pdm_reqs-IsNumbered c)).1 (lt, e), pdm_ioctl)
        refl),
  (λ no. elim (Option-cases (dispatch c.nr_of (pdm_reqs c) cmd)) [
    | inl e ↦ rw (e, pdm_ioctl) refl
    | inr (k, e) ↦
        let p = (dispatch_iff c.nr_of (pdm_reqs c) cmd k (pdm_reqs-IsNumbered c)).0 e in
        absurd (no k p.0 p.1)
  ]),
)

-- The command on a card that comes in or leaves: a bad slot, the slot of the PDM itself or a card type
-- that is neither good nor null is refused with -EINVAL, and nothing changes; the null type is
-- pdm_card_offline and answers 0; another type is pdm_card_online and answers what that answers.
pub card_on_off_line_lem :
    (os : Os) (chips : List ℕ) (d : PdmDrv) (x ct : ℤ) (s : Slots) (l : Log)
    → (is_slot_err x ≡ true → card_on_off_line os chips d x ct s l ≡ (einval, s, l))
      × (index x ≡ d.m_slot → card_on_off_line os chips d x ct s l ≡ (einval, s, l))
      × (is_card_n_null ct ≡ true
          → is_card_type_err ct ≡ true
          → card_on_off_line os chips d x ct s l ≡ (einval, s, l))
      × (is_slot_err x ≡ false
          → index x ≢ d.m_slot
          → (ct ≡ etindev_null
              → card_on_off_line os chips d x ct s l
                ≡ (pos 0, (card_offline x s l).0, (card_offline x s l).1))
            × (is_card_type_err ct ≡ false
                → card_on_off_line os chips d x ct s l ≡ card_online os chips x ct s l))
unfolding card_on_off_line
card_on_off_line_lem os chips d x ct s l = (
  (λ e. ground arith),
  (λ e. ground arith),
  (λ e f. ground arith),
  (λ e f. ((λ g. ground arith), (λ g. ground arith))),
)

fun_keeps :
    (os : Os) (chips : List ℕ) (k : ℕ) (a : IoctlArg) (d : PdmDrv) (s : Slots) (l : Log)
    → d.hd_read ≡ []
    → (pdm_ioctl_fun os chips k a d s l).2.hd_read ≡ []
unfolding pdm_ioctl_fun
fun_keeps os chips zero a d s l e = e
fun_keeps os chips (suc zero) a d s l e = e
fun_keeps os chips (suc (suc zero)) a d s l e = e
fun_keeps os chips (suc (suc (suc zero))) a d s l e = e
fun_keeps os chips (suc (suc (suc (suc k)))) a d s l e = e

-- While no entry waits, poll never reports the file readable, a read returns 0 and copies nothing, and
-- neither a read, a write nor an ioctl makes an entry wait.
pub nothing_to_read :
    (c : Codec) (os : Os) (chips : List ℕ) (d : PdmDrv) (s : Slots) (l : Log)
    → d.hd_read ≡ []
    → ((pdm_poll d ≡ 0) ⊎ (pdm_poll d ≡ poll_out))
      × ((n off : ℕ)
          → ((pdm_read os n off d l).0.ret ≡ pos 0)
            × ((pdm_read os n off d l).0.out ≡ [])
            × ((pdm_read os n off d l).1.hd_read ≡ []))
      × ((n : ℕ) (buf : ℕ → ℕ) → (pdm_write os chips n buf d s l).1.hd_read ≡ [])
      × ((cmd : ℕ) (a : IoctlArg) → (pdm_ioctl c os chips cmd a d s l).2.hd_read ≡ [])
unfolding pdm_poll pdm_read read_loop pdm_write write_on_off write_other pdm_ioctl
nothing_to_read c os chips d s l e = (
  ground arith,
  (λ n off. (rw e refl, rw e refl, rw e refl)),
  (λ n buf. ground arith),
  (λ cmd a. elim (Option-cases (dispatch c.nr_of (pdm_reqs c) cmd)) [
    | inl f ↦ rw (f, pdm_ioctl) e
    | inr (k, f) ↦ rw (f, pdm_ioctl) (fun_keeps os chips k a d s (lock pdm_dev ∷ l) e)
  ]),
)
