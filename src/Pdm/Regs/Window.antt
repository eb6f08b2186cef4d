-- ===== src/Pdm/Regs/Window.antt =====
-- Which bytes a raw register transfer touches.
use linux_drv.Prelude.{
  Bool, Bool-cases, List, [], ap, arith, false, if◌then◌else◌, inl, inr, leb, ltb, ltb→lt, refl,
  suc, sym, true, zero, ℕ, ◌%◌, ◌&&◌, ◌*◌, ◌+◌, ◌-◌, ◌<◌, ◌∙◌, ◌∷◌, ◌≡◌, ◌≤◌,
}
use linux_drv.Pdm.Regs.Hw.{CardAddr}
use linux_drv.Pdm.Regs.Raw.{
  Memory, cleared, copy16, copy_loop, raw_reg_read, read_card, read_each, rounds_of, tmp_len,
  touches, write_card,
}

-- The loop copies `2 * rounds` bytes, whatever length it was asked for.
pub copy_loop_lem :
    (rounds d s : ℕ) (src dst : Memory) (k : ℕ)
    → copy_loop rounds d s src dst k
      ≡ (if leb d k && ltb k (d + 2 * rounds) then src (s + (k - d)) else dst k)
unfolding copy_loop
copy_loop_lem zero d s src dst k = ground arith
copy_loop_lem (suc r) d s src dst k =
    copy_loop_lem r (d + 2) (s + 2) src (copy16 d s src dst) k ∙ join
  where
    join :
        (if leb (d + 2) k && ltb k (d + 2 + 2 * r)
          then src (s + 2 + (k - (d + 2)))
          else copy16 d s src dst k)
        ≡ (if leb d k && ltb k (d + 2 * suc r) then src (s + (k - d)) else dst k)
    join = ground arith

-- The addresses from `lo` up to below `hi` are those that the transfer and the card share.
abbrev pub lo : ℕ → CardAddr → ℕ
lo off c = if leb off c.phy_addr then c.phy_addr else off

abbrev pub hi : ℕ → ℕ → CardAddr → ℕ
hi n off c =
    if leb (n + off) (c.addr_space + c.phy_addr) then n + off else c.addr_space + c.phy_addr

-- The addresses that are copied: the shared ones, up to an even number of them.
abbrev pub copied : ℕ → ℕ → CardAddr → ℕ → Bool
copied n off c a =
    ltb (lo off c) (hi n off c)
    && leb (lo off c) a
    && ltb a (hi n off c + (hi n off c - lo off c) % 2)

touches_lem :
    (n off : ℕ) (c : CardAddr)
    → (touches n off c ≡ ltb (lo off c) (hi n off c))
      × (touches n off c ≡ true → tmp_len n off c ≡ hi n off c - lo off c)
touches_lem n off c = ground arith

-- The loop's bound as an address.
loop_end : (x y : ℕ) → x < y → x + 2 * rounds_of (y - x) ≡ y + (y - x) % 2
loop_end x y h = omega arith

-- A copy of `r` bytes at `x - a`, from `x - b` on, seen by the addresses from `a` on.
window_join :
    (src dst : Memory) (x z r a b k : ℕ)
    → a ≤ x
    → b ≤ x
    → x + r ≡ z
    → (if leb (x - a) k && ltb k (x - a + r) then src (x - b + (k - (x - a))) else dst k)
      ≡ (if leb x (a + k) && ltb (a + k) z then src (a + k - b) else dst k)
window_join src dst x z r a b k ha hb e = ground arith

lo_bounds : (off : ℕ) (c : CardAddr) → (off ≤ lo off c) × (c.phy_addr ≤ lo off c)
lo_bounds off c = ground arith

-- One card is read: each copied address has the card's register, every other byte stays.
pub read_card_lem :
    (n off : ℕ) (c : CardAddr) (regs buf : Memory) (k : ℕ)
    → read_card n off c regs buf k
      ≡ (if copied n off c (off + k) then regs (off + k - c.phy_addr) else buf k)
unfolding read_card
read_card_lem n off c regs buf k =
    let t = touches_lem n off c in
    let x = lo off c in
    let y = hi n off c in
    elim (Bool-cases (touches n off c)) [
      | inl hit ↦
          let less : ltb x y ≡ true = sym t.0 ∙ hit in
          rw (hit, t.1 hit, less)
            (copy_loop_lem (rounds_of (y - x)) (x - off) (x - c.phy_addr) regs buf k
              ∙ window_join regs buf x (y + (y - x) % 2) (2 * rounds_of (y - x)) off c.phy_addr k
                  (lo_bounds off c).0 (lo_bounds off c).1 (loop_end x y (ltb→lt x y less)))
      | inr miss ↦ rw (miss, sym t.0 ∙ miss)
    ]

-- One card is written: each copied address has the buffer's byte, every other register stays.
pub write_card_lem :
    (n off : ℕ) (c : CardAddr) (buf regs : Memory) (k : ℕ)
    → write_card n off c buf regs k
      ≡ (if copied n off c (c.phy_addr + k) then buf (c.phy_addr + k - off) else regs k)
unfolding write_card
write_card_lem n off c buf regs k =
    let t = touches_lem n off c in
    let x = lo off c in
    let y = hi n off c in
    elim (Bool-cases (touches n off c)) [
      | inl hit ↦
          let less : ltb x y ≡ true = sym t.0 ∙ hit in
          rw (hit, t.1 hit, less)
            (copy_loop_lem (rounds_of (y - x)) (x - c.phy_addr) (x - off) buf regs k
              ∙ window_join buf regs x (y + (y - x) % 2) (2 * rounds_of (y - x)) c.phy_addr off k
                  (lo_bounds off c).1 (lo_bounds off c).0 (loop_end x y (ltb→lt x y less)))
      | inr miss ↦ rw (miss, sym t.0 ∙ miss)
    ]

-- The byte at the address `a` after the cards from `i` on were read over the byte `old`.
abbrev pub byte_at : ℕ → ℕ → ℕ → List CardAddr → (ℕ → Memory) → ℕ → ℕ → ℕ
byte_at n off i [] regs a old = old
byte_at n off i (c ∷ cs) regs a old =
    byte_at n off (suc i) cs regs a (if copied n off c a then regs i (a - c.phy_addr) else old)

read_each_lem :
    (n off i : ℕ) (cs : List CardAddr) (regs : ℕ → Memory) (buf : Memory) (k : ℕ)
    → read_each n off i cs regs buf k ≡ byte_at n off i cs regs (off + k) (buf k)
unfolding read_each
read_each_lem n off i [] regs buf k = refl
read_each_lem n off i (c ∷ cs) regs buf k =
    read_each_lem n off (suc i) cs regs (read_card n off c (regs i) buf) k
    ∙ ap (byte_at n off (suc i) cs regs (off + k)) (read_card_lem n off c (regs i) buf k)

-- `pdm_raw_reg_read` fills the buffer so: the byte for an address that is copied from a card is that
-- card's register (of the last such card), and every other byte of the buffer is 0xCC.
pub raw_reg_read_lem :
    (n off : ℕ) (cs : List CardAddr) (regs : ℕ → Memory) (buf : Memory) (k : ℕ)
    → raw_reg_read n off cs regs buf k
      ≡ byte_at n off 0 cs regs (off + k) (if ltb k n then 0xcc else buf k)
unfolding raw_reg_read
raw_reg_read_lem n off cs regs buf k = read_each_lem n off 0 cs regs (cleared n buf) k

-- Every card's range begins and ends at an even address.
abbrev pub AllEven : List CardAddr → Type 0
AllEven [] = Unit
AllEven (c ∷ cs) = (c.phy_addr % 2 ≡ 0) × (c.addr_space % 2 ≡ 0) × AllEven cs

not_copied :
    (n off k : ℕ) (c : CardAddr)
    → n % 2 ≡ 0
    → off % 2 ≡ 0
    → c.phy_addr % 2 ≡ 0
    → c.addr_space % 2 ≡ 0
    → n ≤ k
    → copied n off c (off + k) ≡ false
not_copied n off k c en eo ep es h = ground arith

byte_at-past :
    (n off i k : ℕ) (cs : List CardAddr) (regs : ℕ → Memory) (old : ℕ)
    → n % 2 ≡ 0
    → off % 2 ≡ 0
    → AllEven cs
    → n ≤ k
    → byte_at n off i cs regs (off + k) old ≡ old
byte_at-past n off i k [] regs old en eo ev h = refl
byte_at-past n off i k (c ∷ cs) regs old en eo ev h =
    rw (not_copied n off k c en eo ev.0 ev.1 h)
      (byte_at-past n off (suc i) k cs regs old en eo ev.2 h)

-- A read of an even number of bytes from an even offset writes nothing past the buffer, where the
-- cards' ranges begin and end at even addresses.
pub raw_reg_read_in_bounds :
    (n off : ℕ) (cs : List CardAddr) (regs : ℕ → Memory) (buf : Memory) (k : ℕ)
    → n % 2 ≡ 0
    → off % 2 ≡ 0
    → AllEven cs
    → n ≤ k
    → raw_reg_read n off cs regs buf k ≡ buf k
raw_reg_read_in_bounds n off cs regs buf k en eo ev h =
    raw_reg_read_lem n off cs regs buf k
    ∙ byte_at-past n off 0 k cs regs (if ltb k n then 0xcc else buf k) en eo ev h
    ∙ ground arith

-- A read of an odd number of bytes that lie in one card's range overwrites the byte behind the
-- buffer with the register behind the last one asked for.
pub read_card_overrun :
    (n off : ℕ) (c : CardAddr) (regs buf : Memory)
    → n % 2 ≡ 1
    → c.phy_addr ≤ off
    → off + n ≤ c.phy_addr + c.addr_space
    → read_card n off c regs buf n ≡ regs (off + n - c.phy_addr)
read_card_overrun n off c regs buf odd low high = read_card_lem n off c regs buf n ∙ ground arith

-- What was written to a card's range is read back: a write of `n` bytes that lie in the card's range,
-- at an even offset and of even length, and a read of the same range.
pub read_card-write_card :
    (n off : ℕ) (c : CardAddr) (buf regs old : Memory) (k : ℕ)
    → n % 2 ≡ 0
    → c.phy_addr ≤ off
    → off + n ≤ c.phy_addr + c.addr_space
    → k < n
    → read_card n off c (write_card n off c buf regs) old k ≡ buf k
read_card-write_card n off c buf regs old k even low high lt =
    read_card_lem n off c (write_card n off c buf regs) old k
    ∙ ground (arith, write_card_lem n off c buf regs (off + k - c.phy_addr))
