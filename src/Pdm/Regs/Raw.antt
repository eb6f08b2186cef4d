-- ===== src/Pdm/Regs/Raw.antt =====
-- `pdm_raw_reg_read` and `pdm_raw_reg_write` of pdm/driver/src/pdm_drv_hw.c. Memory is a function
-- from byte offsets to bytes: a buffer from its first byte on, the registers of a card from its
-- base address on. File offsets are small enough not to wrap.
use linux_drv.Prelude.{
  Bool, List, [], if◌then◌else◌, leb, lez, ltb, pos, pos_part, sub_ℕ, suc, zero, ℕ, ℤ, ◌+◌, ◌-◌,
  ◌/◌, ◌==◌, ◌∷◌,
}
use linux_drv.Pdm.Regs.Hw.{CardAddr}

abbrev pub Memory : Type 0
Memory = ℕ → ℕ

-- `*(u_int16_t *)dst = *(u_int16_t *)src`
abbrev pub copy16 : ℕ → ℕ → Memory → Memory → Memory
copy16 d s src dst k = if k == d then src s else if k == d + 1 then src (s + 1) else dst k

-- `for (j = 0; j < tmpLen; j += 2)` with `rounds` rounds left.
unfoldable pub copy_loop : ℕ → ℕ → ℕ → Memory → Memory → Memory
copy_loop zero d s src dst = dst
copy_loop (suc rounds) d s src dst = copy_loop rounds (d + 2) (s + 2) src (copy16 d s src dst)

abbrev pub rounds_of : ℕ → ℕ
rounds_of len = (len + 1) / 2

-- The first and the last address that a transfer of `n` bytes at `off` shares with a card.
abbrev pub tmp_start : ℕ → CardAddr → ℕ
tmp_start off c = if leb off c.phy_addr then c.phy_addr else off

abbrev pub tmp_end : ℕ → ℕ → CardAddr → ℤ
tmp_end n off c =
    let last = sub_ℕ (n + off) 1 in
    let card_last = sub_ℕ (c.addr_space + c.phy_addr) 1 in
    if lez last card_last then last else card_last

abbrev pub tmp_len : ℕ → ℕ → CardAddr → ℕ
tmp_len n off c = pos_part (tmp_end n off c) - tmp_start off c + 1

abbrev pub touches : ℕ → ℕ → CardAddr → Bool
touches n off c = lez (pos (tmp_start off c)) (tmp_end n off c)

-- The body of the loop over the cards: from the registers `regs` into the buffer.
unfoldable pub read_card : ℕ → ℕ → CardAddr → Memory → Memory → Memory
read_card n off c regs buf =
    let start = tmp_start off c in
    if touches n off c
    then copy_loop (rounds_of (tmp_len n off c)) (start - off) (start - c.phy_addr) regs buf
    else buf

-- `regs i` are the registers of the card `i`.
unfoldable pub read_each : ℕ → ℕ → ℕ → List CardAddr → (ℕ → Memory) → Memory → Memory
read_each n off i [] regs buf = buf
read_each n off i (c ∷ cs) regs buf =
    read_each n off (suc i) cs regs (read_card n off c (regs i) buf)

-- `memset(pBuf, 0xCCCC, nBytes)` fills with the low byte.
abbrev pub cleared : ℕ → Memory → Memory
cleared n buf k = if ltb k n then 0xcc else buf k

unfoldable pub raw_reg_read : ℕ → ℕ → List CardAddr → (ℕ → Memory) → Memory → Memory
raw_reg_read n off cs regs buf = read_each n off 0 cs regs (cleared n buf)

-- The loop body of `pdm_raw_reg_write`: from the buffer into the registers.
unfoldable pub write_card : ℕ → ℕ → CardAddr → Memory → Memory → Memory
write_card n off c buf regs =
    let start = tmp_start off c in
    if touches n off c
    then copy_loop (rounds_of (tmp_len n off c)) (start - c.phy_addr) (start - off) buf regs
    else regs

unfoldable pub write_each : ℕ → ℕ → ℕ → List CardAddr → Memory → (ℕ → Memory) → (ℕ → Memory)
write_each n off i [] buf regs = regs
write_each n off i (c ∷ cs) buf regs =
    write_each n off (suc i) cs buf
      (λ j. if j == i then write_card n off c buf (regs i) else regs j)

unfoldable pub raw_reg_write : ℕ → ℕ → List CardAddr → Memory → (ℕ → Memory) → (ℕ → Memory)
raw_reg_write n off cs buf regs = write_each n off 0 cs buf regs
