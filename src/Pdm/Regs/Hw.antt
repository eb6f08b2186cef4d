-- ===== src/Pdm/Regs/Hw.antt =====
-- The address table of pdm/driver/src/pdm_drv_hw.c, and how it is mapped and unmapped (the build
-- without __TIN_SIM_HW__).
use linux_drv.Prelude.{
  Bool, List, [], false, get_or, if◌then◌else◌, not, pos, pos_part, set, suc, true, ℕ, ℤ, ◌&&◌, ◌/◌,
  ◌==◌, ◌∷◌,
}
use linux_drv.Card.{etin_slot_self, index, is_slot_err}
use linux_drv.Kernel.{Log, Os, eio, ioremap, iounmap}

-- An entry of `s_card_addr`. The null pointer is 0.
pub record CardAddr : Type 0 where
  pub phy_addr : ℕ
  pub addr_space : ℕ
  pub vir_addr : ℕ

-- `s_card_addr`, `g_cpld_chip` and `g_pdm_chip`
pub record Hw : Type 0 where
  pub cards : List CardAddr
  pub chips : List ℕ
  pub pdm_chip : ℕ

abbrev pub card_addr_space_size : ℕ
card_addr_space_size = 0x2000000

-- The values that the tables are initialised with.
abbrev pub initial_hw : Hw
initial_hw = record {
  cards =
      record { phy_addr = 0; addr_space = 0; vir_addr = 0 }
      ∷ record { phy_addr = 0xa0000000; addr_space = card_addr_space_size; vir_addr = 0 }
      ∷ [];
  chips = 0 ∷ 0 ∷ [];
  pdm_chip = 0;
}

abbrev pub null_card : CardAddr
null_card = record { phy_addr = 0; addr_space = 0; vir_addr = 0 }

-- The body of the loop in `pdm_dtor_hw`, for the entry `i`.
unfoldable pub unmap_card : ℕ → CardAddr → List ℕ → Log → CardAddr × List ℕ × Log
unmap_card i c chips l =
    if c.vir_addr == 0
    then (c, chips, l)
    else (record c { vir_addr = 0 }, set chips i 0, iounmap c.vir_addr ∷ l)

-- The loop, from the last entry down.
unfoldable pub unmap_each : ℕ → List CardAddr → List ℕ → Log → List CardAddr × List ℕ × Log
unmap_each i [] chips l = ([], chips, l)
unmap_each i (c ∷ cs) chips l =
    let (cs', chips', l') = unmap_each (suc i) cs chips l in
    let (c', chips'', l'') = unmap_card i c chips' l' in (c' ∷ cs', chips'', l'')

-- `pdm_dtor_hw`
unfoldable pub dtor_hw : Hw → Log → Hw × Log
dtor_hw h l =
    let (cs, chips, l') = unmap_each 0 h.cards h.chips l in
    (record { cards = cs; chips = chips; pdm_chip = 0 }, l')

-- The loop of `pdm_ctor_hw` over the entries from `i` on; false is a failed mapping. The entries
-- behind it are as they were.
unfoldable pub map_each :
    Os → ℕ → List CardAddr → List ℕ → Log → Bool × List CardAddr × List ℕ × Log
map_each os i [] chips l = (true, [], chips, l)
map_each os i (c ∷ cs) chips l =
    let vir = pos_part (os l (ioremap c.phy_addr)) in
    let c' : CardAddr = record c { vir_addr = vir } in
    let l1 = ioremap c.phy_addr ∷ l in
    let skip = c.phy_addr == 0 in
    let (ok, cs', chips', l') =
      map_each os (suc i) cs (if skip then chips else set chips i vir) (if skip then l else l1) in
    if not skip && vir == 0
    then (false, c' ∷ cs, chips, l1)
    else (ok, (if skip then c else c') ∷ cs', chips', l')

-- `pdm_ctor_hw`
unfoldable pub ctor_hw : Os → Hw → Log → ℤ × Hw × Log
ctor_hw os h l =
    let (ok, cs, chips, l') = map_each os 0 h.cards h.chips l in
    let mapped : Hw = record h { cards = cs; chips = chips } in
    let (undone, l'') = dtor_hw mapped l' in
    if ok
    then (pos 0, record mapped { pdm_chip = (get_or cs etin_slot_self null_card).vir_addr }, l')
    else (eio, undone, l'')

-- `pdm_get_pfn` (with 4 KiB pages) and `pdm_get_addr_space_size`
unfoldable pub get_pfn : Hw → ℤ → ℕ
get_pfn h x = if is_slot_err x then 0 else (get_or h.cards (index x) null_card).phy_addr / 4096

unfoldable pub get_addr_space_size : Hw → ℤ → ℕ
get_addr_space_size h x =
    if is_slot_err x then 0 else (get_or h.cards (index x) null_card).addr_space
