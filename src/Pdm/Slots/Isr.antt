-- ===== src/Pdm/Slots/Isr.antt =====
-- The interrupt service: the scan of the slots, and the work that runs a slot's handler.
use linux_drv.Prelude.{
  List, [], get_or, if◌then◌else◌, is_pos, none, not, some, suc, ℕ, ◌+◌, ◌==◌, ◌∷◌,
}
use Prim.Native.Nat.{bit_and}
use linux_drv.Kernel.{Log, Os, isr, lock, schedule_work, slot, unlock}
use linux_drv.Pdm.Slots.Irq.{disable_int_reg, enable_int_reg}
use linux_drv.Pdm.Slots.State.{SlotInfo, Slots, slot_at}

-- The body of the loop in `pdm_handle_slot_int`, for a slot whose bit is set. `test_and_change_bit`
-- gives the old bit and flips it.
unfoldable pub take_int : ℕ → SlotInfo → Log → SlotInfo × Log
take_int i v l = (
  record v { work_idx = not v.work_idx },
  schedule_work i (if v.work_idx then 1 else 0) ∷ disable_int_reg i l,
)

-- The loop over the slots from index `i` on, with `s_int_reg_bmp` in `bmps` and the value read from
-- the interrupt register in `reg`.
unfoldable pub handle_each : ℕ → List ℕ → ℕ → List SlotInfo → ℕ → Log → ℕ × List SlotInfo × Log
handle_each reg bmps i [] ret l = (ret, [], l)
handle_each reg bmps i (v ∷ vs) ret l =
    let hit = not (bit_and reg (get_or bmps i 0) == 0) in
    let (v', l') = take_int i v l in
    let (ret', vs', l'') =
      handle_each reg bmps (suc i) vs (if hit then ret + 1 else ret) (if hit then l' else l) in
    (ret', (if hit then v' else v) ∷ vs', l'')

-- `pdm_handle_slot_int`
unfoldable pub handle_slot_int : ℕ → List ℕ → Slots → Log → ℕ × Slots × Log
handle_slot_int reg bmps s l =
    let (ret, vs, l') = handle_each reg bmps 0 s.slots 0 l in (ret, record s { slots = vs }, l')

-- `slot_int_handler` with the mutex held.
unfoldable pub run_isr : Os → SlotInfo → Log → Log
run_isr os v l = elim v.isr_cb [
  | none ↦ l
  | some f ↦
      let c = isr f v.isr_arg in
      if v.int_enabled
      then if is_pos (os l c) then enable_int_reg v.slot_idx (c ∷ l) else c ∷ l
      else l
]

-- `slot_int_handler`, for the work of the slot `i`
unfoldable pub slot_int_handler : Os → ℕ → Slots → Log → Log
slot_int_handler os i s l = unlock (slot i) ∷ run_isr os (slot_at s i) (lock (slot i) ∷ l)
