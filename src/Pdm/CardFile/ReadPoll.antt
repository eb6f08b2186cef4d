-- ===== src/Pdm/CardFile/ReadPoll.antt =====
-- `pdm_drv_read` and `pdm_drv_poll`.
use linux_drv.Prelude.{
  Bool, List, [], false, get_or, if◌then◌else◌, ltb, not, pos, pos_part, true, ℕ, ℤ, ◌++◌, ◌+ℤ◌,
  ◌+◌, ◌-◌, ◌==◌, ◌∷◌,
}
use Prim.Native.Nat.{bit_or}
use linux_drv.Card.{etindev_null}
use linux_drv.Kernel.{Log, Os, copy_to_user, efault, lock, pdm_dev, unlock}
use linux_drv.Pdm.CardFile.State.{CardData, PdmDrv, card_data_size}

-- What a read has done so far: its result, the entries that are left, the list that the entries it
-- delivered were moved to, and what was copied to the user.
pub record ReadState : Type 0 where
  pub ret : ℤ
  pub left : List ℕ
  pub moved : List ℕ
  pub out : List CardData
  pub off : ℕ

abbrev pub card_at : List CardData → ℕ → CardData
card_at cs i = get_or cs i (record { slot_id = 0; dev_type = etindev_null })

-- The loop over `m_hd2Read`.
unfoldable pub read_loop : Os → List CardData → ℕ → ReadState → List ℕ → Log → ReadState × Log
read_loop os cs n r [] l = (r, l)
read_loop os cs n r (i ∷ is) l =
    let fault = not (pos_part (os l copy_to_user) == 0) in
    let l' = copy_to_user ∷ l in
    let next : ReadState = record {
      ret = r.ret +ℤ pos card_data_size;
      left = is;
      moved = r.moved ++ (i ∷ []);
      out = r.out ++ (card_at cs i ∷ []);
      off = r.off + card_data_size;
    } in
    let rest = read_loop os cs (n - card_data_size) next is l' in
    if ltb n card_data_size then (r, l) else if fault then (record r { ret = efault }, l') else rest

-- `pdm_drv_read`: the result, the bytes for the user as entries, the new offset and the new state.
unfoldable pub pdm_read : Os → ℕ → ℕ → PdmDrv → Log → ReadState × PdmDrv × Log
pdm_read os n off d l =
    let start : ReadState = record {
      ret = pos 0;
      left = d.hd_read;
      moved = d.hd_data;
      out = [];
      off = off;
    } in
    let (r, l') = read_loop os d.cards n start d.hd_read (lock pdm_dev ∷ l) in
    (r, record d { hd_read = r.left; hd_data = r.moved }, unlock pdm_dev ∷ l')

-- POLLIN | POLLRDNORM and POLLOUT | POLLWRNORM
abbrev pub poll_in : ℕ
poll_in = 0x41

abbrev pub poll_out : ℕ
poll_out = 0x104

abbrev pub is_empty {ℓ} : {A : Type ℓ} → List A → Bool
is_empty [] = true
is_empty (x ∷ xs) = false

-- `pdm_drv_poll`
unfoldable pub pdm_poll : PdmDrv → ℕ
pdm_poll d =
    let in_mask = if is_empty d.hd_read then 0 else poll_in in
    if is_empty d.hd_data then in_mask else bit_or in_mask poll_out
