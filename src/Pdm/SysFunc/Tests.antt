-- ===== src/Pdm/SysFunc/Tests.antt =====
-- Tests and examples of the file of the system functions.
use linux_drv.Prelude.{List, [], arith, pos, refl, some, suc, true, zero, ℕ, ◌%◌, ◌^◌, ◌∷◌, ◌≡◌}
use Prim.Native.Nat.{bit_or}
use linux_drv.Kernel.{Log, Os, held, lock, sys_func, unlock}
use linux_drv.Pdm.SysFunc.Control.{sys_func_step-held}
use linux_drv.Pdm.SysFunc.Device.{SysChip, SysFunc, sys_func_read}
use linux_drv.Pdm.SysFunc.Pending.{
  Op, ioctl, notify, poll, read, read-run, run, sys_func_step, write,
}

-- A chip of one byte for the blank field.
abbrev one_byte : SysChip ℕ
one_byte = record { get_blank = λ c. c % 2 ^ 8; set_blank = λ x c. x % 2 ^ 8; set_iic = λ x c. c }

abbrev low_byte : ℕ → ℕ
low_byte c = c % 256

abbrev seven : List ℕ
seven = 0x5300 ∷ 0x5301 ∷ 0x5302 ∷ 0x5303 ∷ 0x5304 ∷ 0x5305 ∷ 0x5306 ∷ []

abbrev nothing_pending : SysFunc
nothing_pending = record { m_slot = 1; hrm_offline_int = 0; has_device = true }

abbrev first_byte : (ℕ → ℕ) → ℕ
first_byte f = f 0

abbrev command_i : ℕ → ℕ
command_i zero = b'i'
command_i (suc k) = 4

abbrev fine : Os
fine l c = pos 0

abbrev calls : List Op
calls = notify 1 ∷ read 3 ∷ write 2 command_i ∷ poll ∷ ioctl 0x5303 0 ∷ []

abbrev after : SysFunc × ℕ × Log
after = run one_byte first_byte low_byte seven calls (nothing_pending, 9, [])

read-run_example : sys_func_read 4 after.0 after.2 ≡ (
  pos 4,
  some (bit_or (bit_or 0 1) (4 % 2 ^ 32)),
  record after.0 { hrm_offline_int = 0 },
  unlock sys_func ∷ lock sys_func ∷ after.2,
)
read-run_example =
    (read-run one_byte first_byte low_byte seven calls 4 (nothing_pending, 9, [])
        (omega arith, tt)).0
      (omega arith)

sys_func_step-held_example :
    held (sys_func_step one_byte first_byte low_byte seven (notify 1) (nothing_pending, 9, [])).2
    ≡ some []
sys_func_step-held_example =
    sys_func_step-held one_byte first_byte low_byte seven (notify 1) (nothing_pending, 9, []) refl
