-- ===== src/Frame/Mapping.antt =====
-- Mapping the registers of a card into a process.
use native.Mathlib.Nat.{add-mod_right, mod-eq_of_lt}
use linux_drv.Prelude.{
  Bool-cases, ap, arith, inl, inr, is_neg, false, ltb, pos, refl, some, ℕ, ◌%◌, ◌*◌, ◌+◌, ◌-◌, ◌<◌,
  ◌≤◌, ◌∙◌, ◌∷◌, ◌≡◌, ◌^◌, ◌⊎◌,
}
use linux_drv.Frame.File.{Vma, udf_mmap}
use linux_drv.Frame.State.{Udf, UdfDrv, dev_at}
use linux_drv.Kernel.{Log, Os, efault, remap_pfn}
use linux_drv.Pdm.Regs.Hw.{get_addr_space_size, get_pfn}

-- Below 2 ^ w a difference is what the machine computes.
wrapped_sub : {a b m : ℕ} → b ≤ a → a < m → (a + (m - b)) % m ≡ a - b
wrapped_sub {a} {b} {m} le lt =
    let shifted : a + (m - b) ≡ (a - b) + m = omega (arith, le, lt) in
    ap (λ n. n % m) shifted ∙ add-mod_right (a - b) m ∙ mod-eq_of_lt (omega (arith, le, lt))

-- The pages from frame `p` on, `n` bytes, lie inside the `size` bytes from frame `first` on.
abbrev pub Within : ℕ → ℕ → ℕ → ℕ → Type 0
Within first size p n = (first ≤ p) × (p * 4096 + n ≤ first * 4096 + size)

-- The offset and the addresses are ones that an unsigned long of `w` bits holds, together with what is
-- computed of them.
abbrev pub IsHeld : ℕ → ℕ → Vma → Type 0
IsHeld w first v =
    (v.vm_start ≤ v.vm_end) × (v.pgoff * 4096 + v.vm_end < 2 ^ w) × (first + v.pgoff < 2 ^ w)

-- udf_mmap of a range that does not wrap, on a device that device_create made: a range that ends
-- behind the card's registers is refused with -EFAULT and nothing is mapped; any other is mapped
-- from the card's page at the offset on, with the range's length, and all of it lies inside the
-- card's registers.
pub udf_mmap_lem :
    (os : Os) (w i : ℕ) (v : Vma) (d : UdfDrv) (u : Udf) (l : Log)
    → dev_at u i ≡ some d
    → is_neg d.m_device ≡ false
    → IsHeld w (get_pfn u.hw (pos i)) v
    → let first = get_pfn u.hw (pos i) in
      let size = get_addr_space_size u.hw (pos i) in
      let n = v.vm_end - v.vm_start in
      let c = remap_pfn (first + v.pgoff) n in
      ((size < v.pgoff * 4096 + n) × (udf_mmap os w i v u l ≡ some (efault, l)))
      ⊎ (Within first size (first + v.pgoff) n × (udf_mmap os w i v u l ≡ some (os l c, c ∷ l)))
unfolding udf_mmap
udf_mmap_lem os w i v d u l at_i ok (le, fits, fits_pfn) =
    let m = 2 ^ w in
    let first = get_pfn u.hw (pos i) in
    let size = get_addr_space_size u.hw (pos i) in
    let off : v.pgoff * 4096 % m ≡ v.pgoff * 4096 = mod-eq_of_lt (omega (arith, fits)) in
    let last : (v.pgoff * 4096 + v.vm_end + (m - v.vm_start)) % m
        ≡ v.pgoff * 4096 + v.vm_end - v.vm_start =
      wrapped_sub (omega (arith, le)) fits in
    let len : (v.vm_end + (m - v.vm_start)) % m ≡ v.vm_end - v.vm_start =
      wrapped_sub le (omega (arith, fits)) in
    let page : (first + v.pgoff) % m ≡ first + v.pgoff = mod-eq_of_lt fits_pfn in
    elim (Bool-cases (ltb size (v.pgoff * 4096 + v.vm_end - v.vm_start))) [
      | inl big ↦ inl (ground (arith, big, le), rw (at_i, ok, off, last, big) refl)
      | inr fine ↦
          inr (
            (omega arith, ground (arith, fine, le)),
            rw (at_i, ok, off, last, fine, page, len) refl,
          )
    ]
