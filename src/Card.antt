-- ===== src/Card.antt =====
-- Card types and slots: include/driver/drv_cmm_hdr.h. Both are C integers.
use linux_drv.Prelude.{ℕ, ℤ, pos, negsuc, Bool, true, ◌||◌, lez, ltz, ◌==◌, not}

-- `ETinDev_t`
abbrev pub etindev_null : ℤ
etindev_null = negsuc 0

abbrev pub etindev_pdm : ℤ
etindev_pdm = pos 0

abbrev pub etindev_mio : ℤ
etindev_mio = pos 1

abbrev pub etindev_max : ℕ
etindev_max = 2

-- `ETinSlot_t`
abbrev pub etin_slot_pdm : ℕ
etin_slot_pdm = 0

abbrev pub etin_slot_self : ℕ
etin_slot_self = 1

abbrev pub etin_slot_max : ℕ
etin_slot_max = 2

abbrev pub is_card_type_err : ℤ → Bool
is_card_type_err x = ltz x (pos 0) || lez (pos etindev_max) x

abbrev pub is_card_n_null : ℤ → Bool
is_card_n_null (pos n) = true
is_card_n_null (negsuc n) = not (n == 0)

abbrev pub is_slot_err : ℤ → Bool
is_slot_err x = ltz x (pos 0) || lez (pos etin_slot_max) x

-- The array index that a checked integer stands for.
abbrev pub index : ℤ → ℕ
index (pos n) = n
index (negsuc n) = 0
