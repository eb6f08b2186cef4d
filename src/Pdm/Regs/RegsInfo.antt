-- ===== src/Pdm/Regs/RegsInfo.antt =====
-- The file operations, the start and the end of pdm/driver/src/regs_info_dev.c.
use linux_drv.Prelude.{
  List, if◌then◌else◌, is_neg, lez, ltz, not, pos, pos_part, sub_ℕ, ℕ, ℤ, ◌+ℤ◌, ◌+◌, ◌==◌, ◌||◌,
  ◌∷◌,
}
use linux_drv.Card.{index}
use linux_drv.Kernel.{
  Log, Os, cdev_add, cdev_del, device_create, device_destroy, einval, enoioctlcmd, enomem, lock,
  regs_info, unlock,
}
use linux_drv.Pdm.Regs.Hw.{CardAddr}
use linux_drv.Pdm.Regs.Raw.{Memory, raw_reg_read, raw_reg_write}

-- `m_size`, with the file's position.
pub record RegsFile : Type 0 where
  pub m_size : ℕ
  pub f_pos : ℕ

-- What `regs_info_drv_main_init` sets `m_size` to.
abbrev pub regs_size : ℕ
regs_size = 0x100000000

-- `regs_info_drv_read`: the buffer, the result and the new offset.
unfoldable pub regs_read :
    ℕ → ℕ → List CardAddr → (ℕ → Memory) → Memory → Log → ℕ × ℕ × Memory × Log
regs_read n off cs regs buf l =
    (n, off + n, raw_reg_read n off cs regs buf, unlock regs_info ∷ lock regs_info ∷ l)

-- `regs_info_drv_write`
unfoldable pub regs_write :
    ℕ → ℕ → List CardAddr → Memory → (ℕ → Memory) → Log → ℕ × ℕ × (ℕ → Memory) × Log
regs_write n off cs buf regs l =
    (n, off, raw_reg_write n off cs buf regs, unlock regs_info ∷ lock regs_info ∷ l)

-- `regs_info_drv_ioctl`
abbrev pub regs_ioctl : ℕ → ℤ
regs_ioctl cmd = enoioctlcmd

-- The part of `regs_info_drv_llseek` behind its switch.
unfoldable pub seek_to : ℤ → RegsFile → ℤ × RegsFile
seek_to newpos f =
    if ltz newpos (pos 0) || lez (pos f.m_size) newpos
    then (einval, f)
    else (newpos, record f { f_pos = pos_part newpos })

-- `regs_info_drv_llseek`: SEEK_SET, SEEK_CUR and SEEK_END are 0, 1 and 2. Any other `whence` falls
-- through the switch with `newpos` still 0.
unfoldable pub llseek : ℤ → ℕ → RegsFile → ℤ × RegsFile
llseek off whence f =
    if whence == 0
    then seek_to off f
    else if whence == 1
    then (if lez (sub_ℕ f.m_size f.f_pos) off then (einval, f) else seek_to (pos f.f_pos +ℤ off) f)
    else if whence == 2
    then (if lez (pos 0) off then (einval, f) else seek_to (pos f.m_size +ℤ off) f)
    else seek_to (pos 0) f

-- `regs_info_drv_main_exit`
unfoldable pub regs_exit : ℤ → Log → Log
regs_exit x l = if ltz x (pos 0) || not (index x == 2) then l else cdev_del 2 ∷ device_destroy 2 ∷ l

-- `regs_info_drv_main_init`
unfoldable pub regs_init : Os → ℤ → RegsFile → Log → ℤ × RegsFile × Log
regs_init os x d l =
    let fresh : RegsFile = record d { m_size = regs_size } in
    let added = os l (cdev_add 2) in
    let l1 = cdev_add 2 ∷ l in
    let created = os l1 (device_create 2) in
    let l2 = device_create 2 ∷ l1 in
    if ltz x (pos 0) || not (index x == 2)
    then (einval, d, l)
    else if is_neg added
    then (added, fresh, regs_exit x l1)
    else if is_neg created
    then (enomem, fresh, regs_exit x l2)
    else (added, fresh, l2)
