-- ===== src/Pdm/Regs/Mapping.antt =====
-- `pdm_ctor_hw` maps the cards' address ranges, and undoes it all when one mapping fails.
use linux_drv.Prelude.{
  ◌∙◌, Bool-cases, List, [], arith, if◌then◌else◌, inl, inr, pos, pos_part, refl, set, suc, true, ℕ,
  ◌+◌, ◌==◌, ◌∷◌, ◌≡◌, ◌≢◌, ◌⊎◌,
}
use linux_drv.Kernel.{classes, has_live_class, regions, Log, Os, eio, ioremap, iounmap}
use linux_drv.Pdm.Regs.Hw.{CardAddr, Hw, ctor_hw, dtor_hw, map_each, unmap_card, unmap_each}

abbrev pub IsUnmapped : List CardAddr → Type 0
IsUnmapped [] = Unit
IsUnmapped (c ∷ cs) = (c.vir_addr ≡ 0) × IsUnmapped cs

-- Every entry that has a range is mapped.
abbrev pub IsMapped : List CardAddr → Type 0
IsMapped [] = Unit
IsMapped (c ∷ cs) = (c.phy_addr ≢ 0 → c.vir_addr ≢ 0) × IsMapped cs

-- How many entries are mapped.
abbrev pub live : List CardAddr → ℕ
live [] = 0
live (c ∷ cs) = (if c.vir_addr == 0 then 0 else 1) + live cs

-- How many calls of ioremap succeeded, and how many calls of iounmap there were.
abbrev pub maps : Os → Log → ℕ
maps os [] = 0
maps os (ioremap p ∷ l) = (if pos_part (os l (ioremap p)) == 0 then 0 else 1) + maps os l
maps os (_ ∷ l) = maps os l

abbrev pub unmaps : Log → ℕ
unmaps [] = 0
unmaps (iounmap p ∷ l) = suc (unmaps l)
unmaps (_ ∷ l) = unmaps l

live-IsUnmapped : (cs : List CardAddr) → IsUnmapped cs → live cs ≡ 0
live-IsUnmapped [] h = refl
live-IsUnmapped (c ∷ cs) h = ground (arith, h.0, live-IsUnmapped cs h.1)

unmap_each_lem :
    (os : Os) (i : ℕ) (cs : List CardAddr) (chips : List ℕ) (l : Log)
    → let (cs', _, l') = unmap_each i cs chips l in
      IsUnmapped cs' × (unmaps l' ≡ unmaps l + live cs) × (maps os l' ≡ maps os l)
unfolding unmap_each unmap_card
unmap_each_lem os i [] chips l = (tt, omega arith, refl)
unmap_each_lem os i (c ∷ cs) chips l =
    let ih = unmap_each_lem os (suc i) cs chips l in
    elim (Bool-cases (c.vir_addr == 0)) [
      | inl e ↦ rw e ((ground arith, ih.0), omega (arith, ih.1), ih.2)
      | inr e ↦ rw e ((refl, ih.0), omega (arith, ih.1), ih.2)
    ]

map_each_lem :
    (os : Os) (i : ℕ) (cs : List CardAddr) (chips : List ℕ) (l : Log)
    → IsUnmapped cs
    → let (ok, cs', _, l') = map_each os i cs chips l in
      (ok ≡ true → IsMapped cs') × (unmaps l' ≡ unmaps l) × (maps os l' ≡ maps os l + live cs')
unfolding map_each
map_each_lem os i [] chips l h = ((λ _. tt), refl, omega arith)
map_each_lem os i (c ∷ cs) chips l h =
    let vir = pos_part (os l (ioremap c.phy_addr)) in
    elim (Bool-cases (c.phy_addr == 0)) [
      | inl skip ↦
          let ih = map_each_lem os (suc i) cs chips l h.1 in
          rw skip
            ((λ e. ((λ ne. absurd (ne (ground arith))), ih.0 e)), ih.1, ground (arith, ih.2, h.0))
      | inr use_it ↦ elim (Bool-cases (vir == 0)) [
        | inl fails ↦
            rw (use_it, fails) ((λ e. absurd (cc)), refl, ground (arith, live-IsUnmapped cs h.1))
        | inr fine ↦
            let ih = map_each_lem os (suc i) cs (set chips i vir) (ioremap c.phy_addr ∷ l) h.1 in
            rw (use_it, fine) ((λ e. ((λ _. ground arith), ih.0 e)), ih.1, ground (arith, ih.2))
      ]
    ]

-- `pdm_ctor_hw`, started with nothing mapped, either maps every card that has an address range, or
-- answers -EIO with nothing mapped again, having unmapped as often as it had mapped.
pub ctor_hw_lem :
    (os : Os) (h : Hw) (l : Log)
    → IsUnmapped h.cards
    → let (r, h', l') = ctor_hw os h l in
      ((r ≡ pos 0)
        × IsMapped h'.cards
        × (unmaps l' ≡ unmaps l)
        × (maps os l' ≡ maps os l + live h'.cards))
      ⊎ ((r ≡ eio)
          × IsUnmapped h'.cards
          × (h'.pdm_chip ≡ 0)
          × (maps os l' + unmaps l ≡ maps os l + unmaps l'))
unfolding ctor_hw dtor_hw
ctor_hw_lem os h l un =
    let (ok, cs, chips, l') = map_each os 0 h.cards h.chips l in
    let up = map_each_lem os 0 h.cards h.chips l un in
    let down = unmap_each_lem os 0 cs chips l' in
    elim (Bool-cases ok) [
      | inl e ↦ rw e (inl (refl, up.0 e, up.1, up.2))
      | inr e ↦ rw e (inr (refl, down.0, refl, omega (arith, up.1, up.2, down.1, down.2)))
    ]

-- After `pdm_dtor_hw` nothing is mapped, and it unmapped exactly what was mapped.
pub dtor_hw_lem :
    (os : Os) (h : Hw) (l : Log)
    → let (h', l') = dtor_hw h l in
      IsUnmapped h'.cards
      × (h'.pdm_chip ≡ 0)
      × (unmaps l' ≡ unmaps l + live h.cards)
      × (maps os l' ≡ maps os l)
unfolding dtor_hw
dtor_hw_lem os h l =
    let down = unmap_each_lem os 0 h.cards h.chips l in (down.0, refl, down.1, down.2)

-- The device numbers and the class are as before.
abbrev pub KeepsClass : Os → Log → Log → Type 0
KeepsClass os l l' =
    (regions os l' ≡ regions os l)
    × (classes os l' ≡ classes os l)
    × (has_live_class os l' ≡ has_live_class os l)

unmap_each-KeepsClass :
    (os : Os) (i : ℕ) (cs : List CardAddr) (chips : List ℕ) (l : Log)
    → KeepsClass os l (unmap_each i cs chips l).2
unfolding unmap_each unmap_card
unmap_each-KeepsClass os i [] chips l = (refl, refl, refl)
unmap_each-KeepsClass os i (c ∷ cs) chips l =
    let ih = unmap_each-KeepsClass os (suc i) cs chips l in
    elim (Bool-cases (c.vir_addr == 0)) [ inl e ↦ rw e ih | inr e ↦ rw e ih ]

map_each-KeepsClass :
    (os : Os) (i : ℕ) (cs : List CardAddr) (chips : List ℕ) (l : Log)
    → KeepsClass os l (map_each os i cs chips l).3
unfolding map_each
map_each-KeepsClass os i [] chips l = (refl, refl, refl)
map_each-KeepsClass os i (c ∷ cs) chips l =
    let vir = pos_part (os l (ioremap c.phy_addr)) in
    elim (Bool-cases (c.phy_addr == 0)) [
      | inl skip ↦ rw skip (map_each-KeepsClass os (suc i) cs chips l)
      | inr use_it ↦ elim (Bool-cases (vir == 0)) [
        | inl fails ↦ rw (use_it, fails) (refl, refl, refl)
        | inr fine ↦
            rw (use_it, fine)
              (map_each-KeepsClass os (suc i) cs (set chips i vir) (ioremap c.phy_addr ∷ l))
      ]
    ]

pub dtor_hw-KeepsClass : (os : Os) (h : Hw) (l : Log) → KeepsClass os l (dtor_hw h l).1
unfolding dtor_hw
dtor_hw-KeepsClass os h l = unmap_each-KeepsClass os 0 h.cards h.chips l

pub ctor_hw-KeepsClass : (os : Os) (h : Hw) (l : Log) → KeepsClass os l (ctor_hw os h l).2
unfolding ctor_hw dtor_hw
ctor_hw-KeepsClass os h l =
    let (ok, cs, chips, l') = map_each os 0 h.cards h.chips l in
    let up = map_each-KeepsClass os 0 h.cards h.chips l in
    let down = unmap_each-KeepsClass os 0 cs chips l' in
    elim (Bool-cases ok) [
      | inl e ↦ rw e up
      | inr e ↦ rw e (down.0 ∙ up.0, down.1 ∙ up.1, down.2 ∙ up.2)
    ]
