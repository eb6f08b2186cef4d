-- ===== src/Kernel/Tally.antt =====
-- What a driver holds of the kernel's device numbers and classes, read from the log.
use linux_drv.Prelude.{Bool, [], false, if◌then◌else◌, is_neg, is_pos, ℕ, ◌+◌, ◌-◌, ◌∷◌}
use linux_drv.Kernel.Calls.{Log, Os, alloc_region, class_create, class_destroy, unregister_region}

-- How many ranges of device numbers were allocated and not returned.
abbrev pub regions : Os → Log → ℕ
regions os [] = 0
regions os (alloc_region ∷ l) = (if is_neg (os l alloc_region) then 0 else 1) + regions os l
regions os (unregister_region ∷ l) = regions os l - 1
regions os (_ ∷ l) = regions os l

-- The last class_create answered a class, not null and no error pointer, and it was not destroyed
-- since.
abbrev pub has_live_class : Os → Log → Bool
has_live_class os [] = false
has_live_class os (class_create ∷ l) = is_pos (os l class_create)
has_live_class os (class_destroy ∷ l) = false
has_live_class os (_ ∷ l) = has_live_class os l

-- How many classes were created and not destroyed; to destroy an error pointer does nothing.
abbrev pub classes : Os → Log → ℕ
classes os [] = 0
classes os (class_create ∷ l) = (if is_pos (os l class_create) then 1 else 0) + classes os l
classes os (class_destroy ∷ l) = if has_live_class os l then classes os l - 1 else classes os l
classes os (_ ∷ l) = classes os l
