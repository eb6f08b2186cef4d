-- ===== src/Pdm/Slots/Irq.antt =====
-- A slot's interrupt: who asks for it, and when its mask bit is written.
use linux_drv.Prelude.{
  Bool, Option, false, if◌then◌else◌, is_null, negsuc, none, not, pos, some, true, ℕ, ℤ, ◌==◌, ◌∷◌,
}
use linux_drv.Card.{etin_slot_self, index, is_slot_err}
use linux_drv.Kernel.{Log, eexist, einval, enodev, int_mask, int_reg, lock, unlock}
use linux_drv.Pdm.Slots.State.{Slots, put_slot, slot_at}

-- `s_int_reg_op_func[slot]` is not NULL.
abbrev pub has_mask : ℕ → Bool
has_mask i = i == etin_slot_self

-- `pdm_enable_int_reg` writes 0 to the slot's mask bit, `pdm_disable_int_reg` writes 1.
abbrev pub int_reg_op : ℕ → ℕ → Log → Log
int_reg_op val i l = if has_mask i then unlock int_reg ∷ int_mask i val ∷ lock int_reg ∷ l else l

abbrev pub enable_int_reg : ℕ → Log → Log
enable_int_reg = int_reg_op 0

abbrev pub disable_int_reg : ℕ → Log → Log
disable_int_reg = int_reg_op 1

-- `pdm_request_irq`
unfoldable pub request_irq : ℤ → Option ℕ → ℕ → Slots → Log → ℤ × Slots × Log
request_irq slot_no none arg s l = (einval, s, l)
request_irq slot_no (some f) arg s l =
    let i = index slot_no in
    let v = slot_at s i in
    if is_slot_err slot_no
    then (einval, s, l)
    else if is_null v.type_info
    then (enodev, s, l)
    else if not (is_null v.isr_cb)
    then (eexist, s, l)
    else (pos 0, put_slot s i (record v { isr_arg = arg; isr_cb = some f }), l)

-- `pdm_enable_int` and `pdm_disable_int`
unfoldable pub enable_int : ℤ → Slots → Log → ℤ × Slots × Log
enable_int slot_no s l =
    let i = index slot_no in
    if is_slot_err slot_no
    then (einval, s, l)
    else (pos 0, put_slot s i (record (slot_at s i) { int_enabled = true }), enable_int_reg i l)

unfoldable pub disable_int : ℤ → Slots → Log → ℤ × Slots × Log
disable_int slot_no s l =
    let i = index slot_no in
    if is_slot_err slot_no
    then (einval, s, l)
    else (pos 0, put_slot s i (record (slot_at s i) { int_enabled = false }), disable_int_reg i l)

-- `pdm_free_irq`
unfoldable pub free_irq : ℤ → Slots → Log → Slots × Log
free_irq slot_no s l =
    let i = index slot_no in
    let (_, s', l') = disable_int slot_no s l in
    if is_slot_err slot_no
    then (s, l)
    else (put_slot s' i (record (slot_at s' i) { isr_cb = none; isr_arg = 0 }), l')

-- `pdm_query_online`
unfoldable pub query_online : ℤ → ℤ
query_online (pos n) = if n == etin_slot_self then pos 1 else einval
query_online (negsuc n) = einval
