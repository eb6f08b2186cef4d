-- ===== src/Frame/Halves.antt =====
-- The bottom half of an open file, bh/udf_dbh.c and bh/udf_dbh_ext.c, and the top half,
-- th/udf_dth.c. What a card's own driver adds is a call that the `Os` answers.
use linux_drv.Prelude.{Option, get_or, if◌then◌else◌, is_neg, none, not, pos, some, ℕ, ℤ, ◌==◌, ◌∷◌}
use linux_drv.Card.{index, is_slot_err}
use linux_drv.Frame.State.{Bottom, Top, Udf, malloced}
use linux_drv.Kernel.{
  Log, Os, bh_ctor, bh_dtor, int_data, int_handler, kfree, kmalloc, th_ctor, th_dtor,
}
use linux_drv.Pdm.FastPath.Device.{SifpInfo, sifp_reg, sifp_unreg}

-- `udf_get_slot_hw_base_addr`
unfoldable pub slot_hw_base_addr : Udf → ℤ → ℕ
slot_hw_base_addr u slot = if is_slot_err slot then 0 else get_or u.hw_addrs (index slot) 0

-- `udf_bh_open`
unfoldable pub bh_open : Os → Udf → ℕ → Log → Option Bottom × Log
bh_open os u slot l =
    let l1 = kmalloc ∷ l in
    let l2 = bh_ctor slot ∷ l1 in
    if not (malloced os l)
    then (none, l1)
    else if is_neg (os l1 (bh_ctor slot))
    then (none, kfree ∷ l2)
    else (some (record { slot_no = slot; hw_addr = slot_hw_base_addr u (pos slot) }), l2)

-- `udf_bh_release`
unfoldable pub bh_release : Bottom → Log → Log
bh_release b l = kfree ∷ bh_dtor b.slot_no ∷ l

-- `udf_th_open` behind the bottom half's open: the hardware address, and the top half's constructor.
-- `get_drv_op_set` of the bottom half only fills a table.
unfoldable pub th_opened : Os → ℕ → Option Bottom × Log → Option Top × Log
th_opened os slot (none, l) = (none, kfree ∷ l)
th_opened os slot (some b, l) =
    let l1 = th_ctor slot ∷ l in
    if b.hw_addr == 0
    then (none, kfree ∷ bh_release b l)
    else if is_neg (os l (th_ctor slot))
    then (none, kfree ∷ bh_release b l1)
    else (some (record { slot_id = slot; bh_rep = b; hw_addr = b.hw_addr }), l1)

-- `udf_th_open`
unfoldable pub th_open : Os → Udf → ℕ → Log → Option Top × Log
th_open os u slot l =
    if not (malloced os l)
    then (none, kmalloc ∷ l)
    else th_opened os slot (bh_open os u slot (kmalloc ∷ l))

-- `udf_th_release`; `udf_bh_release_hw_addr` does nothing here.
unfoldable pub th_release : Top → Log → Log
th_release t l = kfree ∷ bh_release t.bh_rep (th_dtor t.slot_id ∷ l)

-- `udf_th_read`, where `udf_bh_read` answers 0, and `udf_th_isr`.
unfoldable pub th_read : Os → Top → Log → ℤ × Log
th_read os t l = (os l (int_data t.slot_id), int_data t.slot_id ∷ l)

unfoldable pub th_isr : Os → Top → Log → ℤ × Log
th_isr os t l = (os l (int_handler t.slot_id), int_handler t.slot_id ∷ l)

-- `udf_bh_online` and `udf_bh_offline` of a card whose driver has fast-path callbacks; `sifp_of` is
-- what `udf_sifp_init` makes of the hardware address.
unfoldable pub bh_online : (ℕ → SifpInfo) → ℕ → Udf → Log → ℤ × Udf × Log
bh_online sifp_of slot u l =
    let (r, ds, l') = sifp_reg (pos slot) (sifp_of (slot_hw_base_addr u (pos slot))) u.sifps l in
    (r, record u { sifps = ds }, l')

unfoldable pub bh_offline : ℕ → Udf → Log → Udf × Log
bh_offline slot u l =
    let (ds, l') = sifp_unreg (pos slot) u.sifps l in (record u { sifps = ds }, l')
