-- ===== src/Pdm/SysFunc/Pending.antt =====
-- The pending offline interrupts under any sequence of the operations.
use linux_drv.Prelude.{
  Bool-cases, List, [], ap, arith, if◌then◌else◌, inl, inr, ltb, none, pos, refl, some, ℕ, ◌%◌, ◌+◌,
  ◌<◌, ◌==◌, ◌^◌, ◌∙◌, ◌∷◌, ◌≡◌, ◌≤◌,
}
use Prim.Native.Nat.{bit_or}
use linux_drv.Kernel.{Log, einval, lock, sys_func, unlock}
use linux_drv.Pdm.CardFile.ReadPoll.{poll_in}
use linux_drv.Pdm.SysFunc.Device.{
  SysChip, SysFunc, offline_int_notify, sys_func_ioctl, sys_func_poll, sys_func_read,
  sys_func_write,
}

-- A call of one of the file's operations.
pub data Op : Type 0 where
  read : ℕ → Op
  write : ℕ → (ℕ → ℕ) → Op
  poll : Op
  ioctl : ℕ → ℕ → Op
  notify : ℕ → Op

-- The environment: the chip, `simple_strtoul` and the command codes.
module _ {C : Type 0} (chip : SysChip C) (parse : (ℕ → ℕ) → ℕ) (nr_of : ℕ → ℕ) (reqs : List ℕ) where
  unfoldable pub sys_func_step : Op → SysFunc × C × Log → SysFunc × C × Log
  sys_func_step (read n) (d, r, l) = let (x, out, d', l') = sys_func_read n d l in (d', r, l')
  sys_func_step (write n buf) (d, r, l) =
      let (x, d', r', l') = sys_func_write chip parse n buf d r l in (d', r', l')
  sys_func_step poll (d, r, l) = (d, r, (sys_func_poll d l).1)
  sys_func_step (ioctl cmd arg) (d, r, l) =
      let (x, out, r', l') = sys_func_ioctl chip nr_of reqs cmd arg r l in (d, r', l')
  sys_func_step (notify b) (d, r, l) = let (d', l') = offline_int_notify b d l in (d', r, l')

  unfoldable pub run : List Op → SysFunc × C × Log → SysFunc × C × Log
  run [] s = s
  run (o ∷ os) s = run os (sys_func_step o s)

  -- The interrupts that an operation reports, over what was pending.
  abbrev pub report : ℕ → Op → ℕ
  report p (notify b) = bit_or p b
  report p (write n buf) = if buf 0 == b'i' then bit_or p (parse (λ k. buf (k + 1)) % 2 ^ 32) else p
  report p _ = p

  abbrev pub reported : ℕ → List Op → ℕ
  reported p [] = p
  reported p (o ∷ os) = reported (report p o) os

  -- No read with room for the word.
  abbrev pub NoRead : List Op → Type 0
  NoRead [] = Unit
  NoRead (read n ∷ os) = (n < 4) × NoRead os
  NoRead (o ∷ os) = NoRead os

  sys_func_report_step :
      (o : Op) (os : List Op) (s : SysFunc × C × Log)
      → NoRead (o ∷ os)
      → ((sys_func_step o s).0.hrm_offline_int ≡ report s.0.hrm_offline_int o) × NoRead os
  unfolding sys_func_step sys_func_read sys_func_write offline_int_notify
  sys_func_report_step (read n) os s h = elim (Bool-cases (ltb n 4)) [
    | inl e ↦ rw e (refl, h.1)
    | inr e ↦ absurd (ground (arith, e, h.0))
  ]
  sys_func_report_step (write n buf) os s h = (ground arith, h)
  sys_func_report_step poll os s h = (refl, h)
  sys_func_report_step (ioctl cmd arg) os s h = (refl, h)
  sys_func_report_step (notify b) os s h = (refl, h)

  pending-run :
      (os : List Op) (s : SysFunc × C × Log)
      → NoRead os
      → (run os s).0.hrm_offline_int ≡ reported s.0.hrm_offline_int os
  unfolding run
  pending-run [] s h = refl
  pending-run (o ∷ os) s h =
      let e = sys_func_report_step o os s h in
      pending-run os (sys_func_step o s) e.1 ∙ ap (λ p. reported p os) e.0

  -- Between two reads no interrupt is lost and none is invented: after any calls of which none is a
  -- read with room for the word, a read with room answers 4, hands over the union of what was pending
  -- and of all that the calls reported, by sys_func_offline_int_notify or by the command 'i', and
  -- leaves nothing pending; a read with less room answers -EINVAL and leaves it pending. Poll
  -- reports the file readable exactly while something is pending.
  pub read-run :
      (os : List Op) (n : ℕ) (s : SysFunc × C × Log)
      → NoRead os
      → let d = (run os s).0 in
        let l = (run os s).2 in
        let p = reported s.0.hrm_offline_int os in
        (4 ≤ n
          → sys_func_read n d l ≡ (
            pos 4,
            some p,
            record d { hrm_offline_int = 0 },
            unlock sys_func ∷ lock sys_func ∷ l,
          ))
        × (n < 4 → (sys_func_read n d l ≡ (einval, none, d, l)) × (d.hrm_offline_int ≡ p))
        × ((sys_func_poll d l).0 ≡ (if p == 0 then 0 else poll_in))
  unfolding sys_func_read sys_func_poll
  read-run os n s h =
      let e = pending-run os s h in ((λ ge. ground arith), (λ lt. (ground arith, e)), rw e refl)
