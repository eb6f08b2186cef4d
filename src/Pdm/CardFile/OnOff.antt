-- ===== src/Pdm/CardFile/OnOff.antt =====
-- `pdm_drv_write` (with __PDM_TEST_ON_OFF_LINE__, as the file defines it) and `pdm_drv_ioctl`.
use linux_drv.Prelude.{
  List, [], if◌then◌else◌, is_neg, leb, map, none, not, pos, some, suc, zero, ℕ, ℤ, ◌&&◌, ◌==◌,
  ◌||◌, ◌∷◌,
}
use linux_drv.Card.{
  etin_slot_pdm, etin_slot_self, etindev_mio, etindev_null, etindev_pdm, index, is_card_n_null,
  is_card_type_err, is_slot_err,
}
use linux_drv.Ioctl.{Codec, dispatch, ioc_read, ioc_write}
use linux_drv.Kernel.{Log, Os, einval, enoioctlcmd, lock, pdm_dev, unlock}
use linux_drv.Pdm.CardFile.State.{CardData, PdmDrv}
use linux_drv.Pdm.Slots.Cards.{card_offline, card_online}
use linux_drv.Pdm.Slots.State.{Slots}

-- `pdm_ioctl_card_on_off_line`
unfoldable pub card_on_off_line : Os → List ℕ → PdmDrv → ℤ → ℤ → Slots → Log → ℤ × Slots × Log
card_on_off_line os chips d slot_id ct s l =
    let (s', l') = card_offline slot_id s l in
    if is_slot_err slot_id || index slot_id == d.m_slot || is_card_n_null ct && is_card_type_err ct
    then (einval, s, l)
    else if not (is_card_n_null ct)
    then (pos 0, s', l')
    else card_online os chips slot_id ct s l

-- `s_fixed_card_type` and `pdm_get_slot_card_type` of pdm/driver/src/pdm_drv_sim.c
abbrev pub fixed_card_type : ℕ → ℤ
fixed_card_type i = if i == etin_slot_pdm then etindev_pdm else etindev_mio

-- `pdm_ioctl_get_all_card_type`: the entries from `i` on.
unfoldable pub get_all_card_type : ℕ → List CardData → List CardData
get_all_card_type i [] = []
get_all_card_type i (c ∷ cs) =
    record c { dev_type = fixed_card_type i } ∷ get_all_card_type (suc i) cs

-- The card type that a command of `pdm_drv_write` names in its bytes 3 to 5: "mio", or none.
unfoldable pub named_type : (ℕ → ℕ) → ℤ
named_type buf =
    if buf 3 == b'm' && buf 4 == b'i' && buf 5 == b'o' then etindev_mio else etindev_null

-- The command "e1 mio r": the simulation does nothing for the slot SELF; with " r" the card comes in
-- or leaves.
unfoldable pub write_on_off :
    Os → List ℕ → ℕ → (ℕ → ℕ) → PdmDrv → Slots → Log → ℤ × PdmDrv × Slots × Log
write_on_off os chips n buf d s l =
    let (r, s', l') = card_on_off_line os chips d (pos etin_slot_self) (named_type buf) s l in
    if buf 6 == b' ' && buf 7 == b'r'
    then ((if is_neg r then r else pos n), d, s', l')
    else (pos n, d, s, l)

-- The other commands: 'd' refreshes the card types before it prints them; 'r', 'v' and 'm' change
-- nothing.
unfoldable pub write_other : ℕ → (ℕ → ℕ) → PdmDrv → ℤ × PdmDrv
write_other n buf d =
    if buf 0 == b'd' then (pos n, record d { cards = get_all_card_type 0 d.cards }) else (pos n, d)

-- `pdm_drv_write`. `buf` is the user's memory from the buffer on.
unfoldable pub pdm_write :
    Os → List ℕ → ℕ → (ℕ → ℕ) → PdmDrv → Slots → Log → ℤ × PdmDrv × Slots × Log
pdm_write os chips n buf d s l =
    let l1 = lock pdm_dev ∷ l in
    let (r, d', s', l') = write_on_off os chips n buf d s l1 in
    let (r2, d2) = write_other n buf d in
    if leb 7 n && buf 0 == b'e' && buf 1 == b'1'
    then (r, d', s', unlock pdm_dev ∷ l')
    else (r2, d2, s, unlock pdm_dev ∷ l1)

-- What an ioctl hands over: the argument's slot and card type, where the command has them.
pub record IoctlArg : Type 0 where
  pub arg_slot : ℤ
  pub arg_type : ℤ

-- What it hands back: nothing, the type of each card, or a slot number.
pub data IoctlOut : Type 0 where
  nothing : IoctlOut
  card_types : List ℤ → IoctlOut
  self_slot : ℕ → IoctlOut

-- The codes of `PDM_IOC_*`.
unfoldable pub pdm_reqs : Codec → List ℕ
pdm_reqs c =
    c.ioc ioc_write 4 b'P' 0
    ∷ c.ioc ioc_write 4 b'P' 1
    ∷ c.ioc ioc_write 8 b'P' 2
    ∷ c.ioc ioc_read 8 b'P' 3
    ∷ c.ioc ioc_read 4 b'P' 4
    ∷ []

-- The functions of the table: the first two do nothing.
unfoldable pub pdm_ioctl_fun :
    Os → List ℕ → ℕ → IoctlArg → PdmDrv → Slots → Log → ℤ × IoctlOut × PdmDrv × Slots × Log
pdm_ioctl_fun os chips zero a d s l = (pos 0, nothing, d, s, l)
pdm_ioctl_fun os chips (suc zero) a d s l = (pos 0, nothing, d, s, l)
pdm_ioctl_fun os chips (suc (suc zero)) a d s l =
    let (r, s', l') = card_on_off_line os chips d a.arg_slot a.arg_type s l in
    (r, nothing, d, s', l')
pdm_ioctl_fun os chips (suc (suc (suc zero))) a d s l =
    let cs = get_all_card_type 0 d.cards in
    (pos 0, card_types (map (λ (c : CardData). c.dev_type) cs), record d { cards = cs }, s, l)
pdm_ioctl_fun os chips (suc (suc (suc (suc k)))) a d s l = (pos 0, self_slot 1, d, s, l)

-- `pdm_drv_ioctl`
unfoldable pub pdm_ioctl :
    Codec → Os → List ℕ → ℕ → IoctlArg → PdmDrv → Slots → Log → ℤ × IoctlOut × PdmDrv × Slots × Log
pdm_ioctl c os chips cmd a d s l = elim (dispatch c.nr_of (pdm_reqs c) cmd) [
  | none ↦ (enoioctlcmd, nothing, d, s, l)
  | some k ↦
      let (r, out, d', s', l') = pdm_ioctl_fun os chips k a d s (lock pdm_dev ∷ l) in
      (r, out, d', s', unlock pdm_dev ∷ l')
]
