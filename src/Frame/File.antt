-- ===== src/Frame/File.antt =====
-- The file operations of file_op.c on the device of a slot, in the build for the kernel. A file that
-- is open stands for the device of its slot. `none` is the use of a null or an invalid pointer.
use mathlib.Core.Option
use linux_drv.Prelude.{
  Bool, List, Option, false, if◌then◌else◌, is_neg, is_null, ltb, none, not, pos, some, true, ℕ, ℤ,
  ◌%◌, ◌*◌, ◌+◌, ◌-◌, ◌==◌, ◌^◌, ◌∷◌,
}
use linux_drv.Frame.Halves.{th_isr, th_open, th_read, th_release}
use linux_drv.Frame.State.{Top, Udf, UdfDrv, dev_at, put_dev}
use linux_drv.Ioctl.{Codec, dispatch, ioc_read, ioc_write}
use linux_drv.Kernel.{
  Log, Os, eexist, efault, enoioctlcmd, enomem, lock, remap_pfn, udf, unlock, wake_up,
}
use linux_drv.Pdm.Regs.Hw.{get_addr_space_size, get_pfn}
use linux_drv.Pdm.Slots.Irq.{disable_int, enable_int, free_irq, query_online, request_irq}

-- A result, whether the file has its private data, the state and the log.
abbrev pub Opened : Type 0
Opened = ℤ × Bool × Udf × Log

abbrev pub put_data : ℕ → UdfDrv → Option Top → Udf → Udf
put_data i d t u = put_dev i (some (record d { m_data = t })) u

-- `udf_open` with the top half open, `isr` being the address of `udf_isr`.
unfoldable pub open_requested : ℕ → ℕ → UdfDrv → Udf → Option Top × Log → Opened
open_requested isr i d u (none, l) = (enomem, false, u, unlock (udf i) ∷ l)
open_requested isr i d u (some t, l) =
    let (r, s, l') = request_irq (pos i) (some isr) i u.pdm l in
    let u' : Udf = record u { pdm = s } in
    if is_neg r
    then (r, false, put_data i d none u', unlock (udf i) ∷ th_release t l')
    else (pos 0, true, put_data i d (some t) u', unlock (udf i) ∷ l')

-- `udf_open` of a file that has private data or not.
unfoldable pub open_dev : Os → ℕ → ℕ → Bool → UdfDrv → Udf → Log → Opened
open_dev os isr i has_private d u l =
    let l1 = lock (udf i) ∷ l in
    if has_private
    then (eexist, true, u, l)
    else if not (is_null d.m_data)
    then (eexist, false, u, unlock (udf i) ∷ l1)
    else open_requested isr i d u (th_open os u i l1)

-- An operation that reads the slot from the device's number.
abbrev pub with_dev {ℓ} : {A : Type ℓ} → Option UdfDrv → (UdfDrv → A) → Option A
with_dev none f = none
with_dev (some d) f = if is_neg d.m_device then none else some (f d)

unfoldable pub udf_open : Os → ℕ → ℕ → Bool → Udf → Log → Option Opened
udf_open os isr i has_private u l = with_dev (dev_at u i) (λ d. open_dev os isr i has_private d u l)

-- `udf_release`
unfoldable pub release_dev : ℕ → UdfDrv → Udf → Log → Opened
release_dev i d u l =
    let (s, l1) = free_irq (pos i) u.pdm (lock (udf i) ∷ l) in
    let u' : Udf = record u { pdm = s } in
    elim d.m_data [
      | none ↦ (pos 0, false, u', unlock (udf i) ∷ l1)
      | some t ↦ (pos 0, false, put_data i d none u', unlock (udf i) ∷ th_release t l1)
    ]

unfoldable pub udf_release : ℕ → Udf → Log → Option Opened
udf_release i u l = with_dev (dev_at u i) (λ d. release_dev i d u l)

-- An operation of an open file on its top half.
abbrev pub with_data {ℓ} : {A : Type ℓ} → Option UdfDrv → (UdfDrv → Top → A) → Option A
with_data none f = none
with_data (some d) f = Option.map (f d) d.m_data

-- `udf_read`
unfoldable pub udf_read : Os → ℕ → Udf → Log → Option (ℤ × Udf × Log)
udf_read os i u l = with_data (dev_at u i) (λ d t.
    let (r, l') = th_read os t (lock (udf i) ∷ l) in
    (r, put_dev i (some (record d { can_read = false })) u, unlock (udf i) ∷ l'))

-- `udf_isr`
unfoldable pub udf_isr : Os → ℕ → Udf → Log → Option (ℤ × Udf × Log)
udf_isr os i u l = with_data (dev_at u i) (λ d t.
    let (r, l') = th_isr os t (lock (udf i) ∷ l) in
    (r, put_dev i (some (record d { can_read = true })) u, unlock (udf i) ∷ wake_up ∷ l'))

-- `udf_poll`: whether the file is readable.
unfoldable pub udf_poll : ℕ → Udf → Log → Option (Bool × Log)
udf_poll i u l = elim (dev_at u i) [
  | none ↦ none
  | some d ↦ some (d.can_read, unlock (udf i) ∷ lock (udf i) ∷ l)
]

-- The functions of the table that every driver has: `udf_reset`, `udf_hello`, `udf_enable_int`,
-- `udf_query_online` and `udf_get_mem_size`; the card's own driver adds the others. `arg` is what the
-- argument points to; the last part is what is written there.
pub record FunOut : Type 0 where
  pub ret : ℤ
  pub state : Udf
  pub out : Option ℕ
  pub log : Log

-- The functions that the card's own driver adds, which are given the operations of the frame and may
-- change its data: the place in the table, the argument, the data and the log.
abbrev pub Extra : Type 0
Extra = ℕ → ℕ → Udf → Log → FunOut

unfoldable pub ioctl_fun : Extra → Top → ℕ → ℕ → Udf → Log → FunOut
ioctl_fun extra t k arg u l =
    let slot = pos t.bh_rep.slot_no in
    let (r, s, l') = (if arg == 0 then disable_int slot u.pdm l else enable_int slot u.pdm l) in
    if k == 2
    then record {
      ret = if arg == 0 then pos 0 else r;
      state = record u { pdm = s };
      out = none;
      log = l';
    }
    else if k == 3
    then record { ret = query_online slot; state = u; out = none; log = l }
    else if k == 4
    then record { ret = pos 0; state = u; out = some (get_addr_space_size u.hw slot); log = l }
    else extra k arg u l

-- The first two functions do nothing; the others need the top half.
unfoldable pub ioctl_run : Extra → Option Top → ℕ → ℕ → Udf → Log → Option FunOut
ioctl_run extra none k arg u l =
    if ltb k 2 then some (record { ret = pos 0; state = u; out = none; log = l }) else none
ioctl_run extra (some t) k arg u l =
    if ltb k 2
    then some (record { ret = pos 0; state = u; out = none; log = l })
    else some (ioctl_fun extra t k arg u l)

-- The codes of the table's commands: no data, three times written, once read; `own` are those that
-- the card's own driver adds.
unfoldable pub udf_reqs : Codec → ℕ → List ℕ → List ℕ
udf_reqs c type own =
    c.ioc 0 0 type 0
    ∷ c.ioc ioc_write 4 type 1
    ∷ c.ioc ioc_write 4 type 2
    ∷ c.ioc ioc_write 4 type 3
    ∷ c.ioc ioc_read 4 type 4
    ∷ own

abbrev pub unlocked : ℕ → FunOut → FunOut
unlocked i o = record o { log = unlock (udf i) ∷ o.log }

-- `udf_ioctl`
unfoldable pub udf_ioctl : Codec → Extra → ℕ → List ℕ → ℕ → ℕ → ℕ → Udf → Log → Option FunOut
udf_ioctl c extra type own i cmd arg u l =
    let l1 = lock (udf i) ∷ l in
    elim (dev_at u i) [
      | none ↦ none
      | some d ↦ elim (dispatch c.nr_of (udf_reqs c type own) cmd) [
        | none ↦ some (unlocked i (record { ret = enoioctlcmd; state = u; out = none; log = l1 }))
        | some k ↦ Option.map (unlocked i) (ioctl_run extra d.m_data k arg u l1)
      ]
    ]

-- `struct vm_area_struct`: the offset in pages of 2 ^ 12 bytes, and the addresses.
pub record Vma : Type 0 where
  pub pgoff : ℕ
  pub vm_start : ℕ
  pub vm_end : ℕ

-- `udf_mmap`, with an unsigned long of `w` bits: the frame number of the first page that is mapped and
-- the length, or the error.
unfoldable pub udf_mmap : Os → ℕ → ℕ → Vma → Udf → Log → Option (ℤ × Log)
udf_mmap os w i v u l = with_dev (dev_at u i) (λ d.
    let m = 2 ^ w in
    let pfn = (get_pfn u.hw (pos i) + v.pgoff) % m in
    let last = (v.pgoff * 4096 % m + v.vm_end + (m - v.vm_start)) % m in
    let c = remap_pfn pfn ((v.vm_end + (m - v.vm_start)) % m) in
    if ltb (get_addr_space_size u.hw (pos i)) last then (efault, l) else (os l c, c ∷ l))
