-- ===== src/Pdm/Regs/Tests.antt =====
-- Tests and examples of the raw register access.
use linux_drv.Prelude.{[], arith, pos, refl, ◌+◌, ◌∷◌, ◌≡◌}
use linux_drv.Kernel.{Os}
use linux_drv.Pdm.Regs.Hw.{CardAddr, Hw, initial_hw, null_card}
use linux_drv.Pdm.Regs.Raw.{Memory, copy_loop, raw_reg_read, read_card, read_each, write_card}
use linux_drv.Pdm.Regs.RegsInfo.{RegsFile, regs_size}
use linux_drv.Pdm.Regs.Window.{
  byte_at, raw_reg_read_lem, read_card-write_card, read_card_overrun, write_card_lem,
}

abbrev card : CardAddr
card = record { phy_addr = 100; addr_space = 8; vir_addr = 5 }

abbrev registers : Memory
registers k = k + 1

abbrev blank : Memory
blank k = 0

abbrev file : RegsFile
file = record { m_size = regs_size; f_pos = 100 }

raw_reg_read_lem_example :
    raw_reg_read 4 102 (null_card ∷ card ∷ []) (λ i. registers) blank 1
    ≡ byte_at 4 102 0 (null_card ∷ card ∷ []) (λ i. registers) 103 0xcc
raw_reg_read_lem_example = raw_reg_read_lem 4 102 (null_card ∷ card ∷ []) (λ i. registers) blank 1

reads_register : raw_reg_read 4 102 (null_card ∷ card ∷ []) (λ i. registers) blank 1 ≡ 4
unfolding raw_reg_read read_each read_card copy_loop
reads_register = refl

read_card_overrun_example : read_card 3 102 card registers blank 3 ≡ registers 5
read_card_overrun_example =
    read_card_overrun 3 102 card registers blank refl (omega arith) (omega arith)

write_card_lem_example : write_card 3 102 card registers blank 5 ≡ registers 3
write_card_lem_example = write_card_lem 3 102 card registers blank 5

read_card-write_card_example :
    read_card 4 102 card (write_card 4 102 card registers blank) blank 2 ≡ 3
read_card-write_card_example =
    read_card-write_card 4 102 card registers blank blank 2 refl (omega arith) (omega arith)
      (omega arith)

abbrev no_memory : Os
no_memory l c = pos 0

abbrev up : Hw
up = record initial_hw { cards = null_card ∷ card ∷ []; pdm_chip = 5 }
