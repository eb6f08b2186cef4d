-- ===== src/Pdm/CardFile/Failed.antt =====
-- What a failed command of the device file leaves behind.
use linux_drv.Prelude.{
  Bool-cases, List, arith, inl, inr, is_neg, leb, pos, refl, true, ℕ, ℤ, ◌&&◌, ◌==◌, ◌∷◌, ◌≡◌, ◌⊎◌,
}
use linux_drv.Card.{etin_slot_self}
use linux_drv.Kernel.{Log, Os, lock, pdm_dev}
use linux_drv.Pdm.CardFile.OnOff.{
  card_on_off_line, named_type, pdm_write, write_on_off, write_other,
}
use linux_drv.Pdm.CardFile.State.{PdmDrv}
use linux_drv.Pdm.Slots.Cards.{card_online, online_empty}
use linux_drv.Pdm.Slots.State.{Slots}

card_online_failed :
    (os : Os) (chips : List ℕ) (x ct : ℤ) (s : Slots) (l : Log)
    → is_neg (card_online os chips x ct s l).0 ≡ true
    → (card_online os chips x ct s l).1 ≡ s
unfolding card_online online_empty
card_online_failed os chips x ct s l neg = ground arith

on_off_failed :
    (os : Os) (chips : List ℕ) (d : PdmDrv) (x ct : ℤ) (s : Slots) (l : Log)
    → is_neg (card_on_off_line os chips d x ct s l).0 ≡ true
    → (card_on_off_line os chips d x ct s l).1 ≡ s
unfolding card_on_off_line
on_off_failed os chips d x ct s l neg =
    let rest = card_online_failed os chips x ct s l in ground arith

write_on_off_lem :
    (os : Os) (chips : List ℕ) (n : ℕ) (buf : ℕ → ℕ) (d : PdmDrv) (s : Slots) (l : Log)
    → let (r, d', s', l') = write_on_off os chips n buf d s l in
      (r ≡ pos n) ⊎ ((is_neg r ≡ true) × (d' ≡ d) × (s' ≡ s))
unfolding write_on_off
write_on_off_lem os chips n buf d s l =
    let c = card_on_off_line os chips d (pos etin_slot_self) (named_type buf) s l in
    elim (Bool-cases (buf 6 == b' ' && buf 7 == b'r')) [
      | inr e ↦ rw e (inl refl)
      | inl e ↦ elim (Bool-cases (is_neg c.0)) [
        | inr f ↦ rw (e, f) (inl refl)
        | inl f ↦
            rw (e, f)
              (inr (f, refl, on_off_failed os chips d (pos etin_slot_self) (named_type buf) s l f))
      ]
    ]

-- A write to the device file either takes all its bytes or answers an error, and with an error
-- neither the file's data nor the slot table has changed.
pub pdm_write_lem :
    (os : Os) (chips : List ℕ) (n : ℕ) (buf : ℕ → ℕ) (d : PdmDrv) (s : Slots) (l : Log)
    → let (r, d', s', l') = pdm_write os chips n buf d s l in
      (r ≡ pos n) ⊎ ((is_neg r ≡ true) × (d' ≡ d) × (s' ≡ s))
unfolding pdm_write write_other
pdm_write_lem os chips n buf d s l = elim (Bool-cases (leb 7 n && buf 0 == b'e' && buf 1 == b'1')) [
  | inl e ↦ rw e (write_on_off_lem os chips n buf d s (lock pdm_dev ∷ l))
  | inr e ↦ elim (Bool-cases (buf 0 == b'd')) [
    | inl f ↦ rw (e, f) (inl refl)
    | inr f ↦ rw (e, f) (inl refl)
  ]
]
