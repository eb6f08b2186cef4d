-- ===== src/Pdm/Regs/Seek.antt =====
-- Where `regs_info_drv_llseek` goes.
use linux_drv.Prelude.{
  Bool, Bool-cases, arith, false, if◌then◌else◌, inl, inr, lez, ltz, negsuc, pos, pos_part, set,
  sub_ℕ, true, ℕ, ℤ, ◌&&◌, ◌+ℤ◌, ◌<◌, ◌==◌, ◌≡◌,
}
use linux_drv.Kernel.{einval}
use linux_drv.Pdm.Regs.RegsInfo.{RegsFile, llseek, seek_to}

-- The position that a seek asks for.
abbrev pub target : ℤ → ℕ → RegsFile → ℤ
target off whence f =
    if whence == 0
    then off
    else if whence == 1
    then pos f.f_pos +ℤ off
    else if whence == 2
    then pos f.m_size +ℤ off
    else pos 0

abbrev pub in_file : ℤ → RegsFile → Bool
in_file x f = lez (pos 0) x && ltz x (pos f.m_size)

seek_to_lem :
    (x : ℤ) (f : RegsFile)
    → seek_to x f ≡ (if in_file x f then (x, record f { f_pos = pos_part x }) else (einval, f))
unfolding seek_to
seek_to_lem (pos n) f = ground arith
seek_to_lem (negsuc n) f = ground arith

-- What the early tests for SEEK_CUR and SEEK_END refuse is outside the file.
cur_guard :
    (off : ℤ) (f : RegsFile)
    → f.f_pos < f.m_size
    → lez (sub_ℕ f.m_size f.f_pos) off ≡ true
    → in_file (pos f.f_pos +ℤ off) f ≡ false
cur_guard (pos n) f h e = ground arith
cur_guard (negsuc n) f h e = ground arith

end_guard :
    (off : ℤ) (f : RegsFile) → lez (pos 0) off ≡ true → in_file (pos f.m_size +ℤ off) f ≡ false
end_guard (pos n) f e = ground arith
end_guard (negsuc n) f e = absurd (ground arith)

-- `regs_info_drv_llseek` goes to the position that is asked for when it lies in the file, and
-- returns it; else it fails with -EINVAL and the position stays. A `whence` that is none of SEEK_SET,
-- SEEK_CUR and SEEK_END asks for position 0. The position is in the file before the call.
pub llseek_lem :
    (off : ℤ) (whence : ℕ) (f : RegsFile)
    → f.f_pos < f.m_size
    → let x = target off whence f in
      llseek off whence f
      ≡ (if in_file x f then (x, record f { f_pos = pos_part x }) else (einval, f))
unfolding llseek
llseek_lem off whence f h = elim (Bool-cases (whence == 0)) [
  | inl set ↦ rw set (seek_to_lem off f)
  | inr no_set ↦ elim (Bool-cases (whence == 1)) [
    | inl cur ↦ elim (Bool-cases (lez (sub_ℕ f.m_size f.f_pos) off)) [
      | inl far ↦ rw (no_set, cur, far, cur_guard off f h far)
      | inr near ↦ rw (no_set, cur, near) (seek_to_lem (pos f.f_pos +ℤ off) f)
    ]
    | inr no_cur ↦ elim (Bool-cases (whence == 2)) [
      | inl end ↦ elim (Bool-cases (lez (pos 0) off)) [
        | inl far ↦ rw (no_set, no_cur, end, far, end_guard off f far)
        | inr near ↦ rw (no_set, no_cur, end, near) (seek_to_lem (pos f.m_size +ℤ off) f)
      ]
      | inr other ↦ rw (no_set, no_cur, other) (seek_to_lem (pos 0) f)
    ]
  ]
]

-- The position stays in the file, whatever is asked for.
pub llseek_in_file :
    (off : ℤ) (whence : ℕ) (f : RegsFile)
    → f.f_pos < f.m_size
    → (llseek off whence f).1.f_pos < (llseek off whence f).1.m_size
llseek_in_file off whence f h = elim (Bool-cases (in_file (target off whence f) f)) [
  | inl inside ↦ rw (llseek_lem off whence f h, inside) (below (target off whence f) f inside)
  | inr outside ↦ rw (llseek_lem off whence f h, outside) h
]
  where
    below : (x : ℤ) (f : RegsFile) → in_file x f ≡ true → pos_part x < f.m_size
    below (pos n) f e = ground arith
    below (negsuc n) f e = absurd (ground arith)
