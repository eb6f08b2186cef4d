-- ===== src/Frame/Cards.antt =====
-- A card that comes into a slot.
use mathlib.Core.Path.{subst}
use linux_drv.Prelude.{
  Bool-cases, Option, ap, false, get_or, get_or-set_self, if◌then◌else◌, inl, inr, length, none,
  pos, refl, set, set-get_or, set-set, some, sym, ℕ, ℤ, ◌+◌, ◌<◌, ◌==◌, ◌∙◌, ◌≡◌, ◌⊎◌,
}
use linux_drv.Card.{index, is_slot_err}
use linux_drv.Frame.Device.{main_init, online_made, udf_online}
use linux_drv.Frame.Halves.{bh_online, slot_hw_base_addr}
use linux_drv.Frame.Memory.{HasDevice, Stands, live, main_init-HasDevice}
use linux_drv.Frame.State.{Udf, UdfDrv, put_hw_addr}
use linux_drv.Kernel.{Log, Os, einval, enomem}
use linux_drv.Pdm.FastPath.Device.{SifpInfo, drv_at, is_sifp_slot_err, sifp_reg}

-- With the address taken back a vacant slot is as it was.
pub vacated :
    (u : Udf) (i base : ℕ) → get_or u.hw_addrs i 0 ≡ 0 → put_hw_addr i 0 (put_hw_addr i base u) ≡ u
vacated u i base e =
    ap (λ xs. record u { hw_addrs = xs })
      (set-set u.hw_addrs i base 0 ∙ ap (set u.hw_addrs i) (sym e) ∙ set-get_or u.hw_addrs i 0)

-- The card is in: its device stands, its address is recorded, and the fast path has its callbacks,
-- where the slot has a fast path; only there is the answer no error.
abbrev pub HasCard : Os → (ℕ → SifpInfo) → ℕ → ℕ → Udf → ℤ → Udf → Log → Type 0
HasCard os sifp_of i base u r u' l' =
    (d : UdfDrv) × (d.m_data ≡ none)
    × Stands os i d l'
    × (u'.dev_set ≡ set u.dev_set i (some d))
    × (u'.hw_addrs ≡ set u.hw_addrs i base)
    × (u'.pdm ≡ u.pdm)
    × (r ≡ (if is_sifp_slot_err (pos i) then einval else pos 0))
    × (u'.sifps ≡ (
        if is_sifp_slot_err (pos i)
        then u.sifps
        else set u.sifps i (record (drv_at u.sifps i) { slot_info = sifp_of base })))

-- The outcome of a card's coming into a vacant slot.
abbrev pub ComesIn : Os → (ℕ → SifpInfo) → ℕ → ℕ → Udf → Log → ℤ × Udf × Log → Type 0
ComesIn os sifp_of i base u l (r, u', l') =
    ((r ≡ enomem) × (u' ≡ u) × (live os l' ≡ live os l))
    ⊎ (HasCard os sifp_of i base u r u' l' × (live os l' ≡ live os l + 1))

online_made_lem :
    (os : Os) (sifp_of : ℕ → SifpInfo) (i base : ℕ) (u : Udf) (l : Log) (p : Option UdfDrv × Log)
    → is_slot_err (pos i) ≡ false
    → i < length u.hw_addrs
    → get_or u.hw_addrs i 0 ≡ 0
    → HasDevice os i l p
    → ComesIn os sifp_of i base u l (online_made sifp_of i (put_hw_addr i base u) p)
unfolding online_made bh_online slot_hw_base_addr sifp_reg
online_made_lem os sifp_of i base u l (none, l1) good lt e h = inl (refl, vacated u i base e, h)
online_made_lem os sifp_of i base u l (some d, l1) good lt e (more, closed, _, stands) =
    let here = get_or-set_self u.hw_addrs i base 0 lt in
    elim (Bool-cases (is_sifp_slot_err (pos i))) [
      | inl f ↦ rw f (inr ((d, closed, stands, refl, refl, refl, refl, refl), more))
      | inr f ↦ rw (f, good, here) (inr ((d, closed, stands, refl, refl, refl, refl, refl), more))
    ]

-- The slot is one of the card's own slots, the address is not null, and no card is in it.
abbrev pub IsVacant : ℤ → ℕ → Udf → Type 0
IsVacant slot base u =
    (is_slot_err slot ≡ false)
    × ((base == 0) ≡ false)
    × (index slot < length u.hw_addrs)
    × (get_or u.hw_addrs (index slot) 0 ≡ 0)

udf_online-online_made :
    (os : Os) (sifp_of : ℕ → SifpInfo) (i base : ℕ) (u : Udf) (l : Log)
    → IsVacant (pos i) base u
    → udf_online os sifp_of (pos i) base u l
      ≡ online_made sifp_of i (put_hw_addr i base u) (main_init os i l)
unfolding udf_online
udf_online-online_made os sifp_of i base u l (good, some_base, _, e) = rw (good, some_base, e) refl

-- udf_online of a card into a vacant slot: it answers -ENOMEM, nothing has changed and no memory
-- is kept, or the device of the slot is stored, closed, with one object of memory, its character
-- device was added without an error and its device node created, which is not null, and neither
-- is gone, the address is recorded, and the card's fast-path callbacks are registered where the
-- slot has a fast path: then it answers 0, and -EINVAL where it has none, although the card is
-- in.
pub udf_online_lem :
    (os : Os) (sifp_of : ℕ → SifpInfo) (i base : ℕ) (u : Udf) (l : Log)
    → IsVacant (pos i) base u
    → ComesIn os sifp_of i base u l (udf_online os sifp_of (pos i) base u l)
udf_online_lem os sifp_of i base u l (good, some_base, lt, e) =
    subst (ComesIn os sifp_of i base u l)
      (sym (udf_online-online_made os sifp_of i base u l (good, some_base, lt, e)))
      (online_made_lem os sifp_of i base u l (main_init os i l) good lt e
        (main_init-HasDevice os i l))
