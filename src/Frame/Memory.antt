-- ===== src/Frame/Memory.antt =====
-- The memory that a driver holds, and what opening a top half takes of it.
use linux_drv.Prelude.{
  Bool, true, false, not, is_neg, ℤ, ◌==◌, Option, [], arith, if◌then◌else◌, none, refl, some, ℕ,
  ◌+◌, ◌-◌, ◌∷◌, ◌≡◌,
}
use linux_drv.Frame.Halves.{bh_open, bh_release, th_open, th_opened, th_release}
use linux_drv.Frame.Device.{is_os_ptr_invalid, main_exit, main_init}
use linux_drv.Frame.State.{Top, Udf, UdfDrv, malloced}
use linux_drv.Pdm.Slots.Irq.{int_reg_op}
use linux_drv.Kernel.{Log, Os, cdev_add, cdev_del, device_create, device_destroy, kfree, kmalloc}

-- How many objects were allocated and not freed.
abbrev pub live : Os → Log → ℕ
live os [] = 0
live os (kmalloc ∷ l) = (if malloced os l then 1 else 0) + live os l
live os (kfree ∷ l) = live os l - 1
live os (_ ∷ l) = live os l

-- Opening a top half: it holds two objects, or it has freed what it took.
abbrev pub Holding : Os → ℕ → Log → Option Top × Log → Type 0
Holding os slot l (none, l') = live os l' ≡ live os l
Holding os slot l (some t, l') =
    (live os l' ≡ live os l + 2) × (t.slot_id ≡ slot) × (t.bh_rep.slot_no ≡ slot)

pub th_open-Holding :
    (os : Os) (u : Udf) (slot : ℕ) (l : Log) → Holding os slot l (th_open os u slot l)
unfolding th_open th_opened bh_open bh_release
th_open-Holding os u slot l = ground arith

pub live-th_release : (os : Os) (t : Top) (l : Log) → live os (th_release t l) ≡ live os l - 2
unfolding th_release bh_release
live-th_release os t l = omega arith

pub live-int_reg_op : (os : Os) (val i : ℕ) (l : Log) → live os (int_reg_op val i l) ≡ live os l
live-int_reg_op os val i l = ground arith

pub live-main_exit : (os : Os) (i : ℕ) (l : Log) → live os (main_exit i l) ≡ live os l - 1
unfolding main_exit
live-main_exit os i l = refl

-- The device node of the slot: what the device_create that was not followed by device_destroy
-- answered.
abbrev pub device_of : Os → ℕ → Log → Option ℤ
device_of os i [] = none
device_of os i (device_create j ∷ l) =
    if j == i then some (os l (device_create j)) else device_of os i l
device_of os i (device_destroy j ∷ l) = if j == i then none else device_of os i l
device_of os i (_ ∷ l) = device_of os i l

-- The slot's character device was added without an error, and not deleted since.
abbrev pub has_cdev : Os → ℕ → Log → Bool
has_cdev os i [] = false
has_cdev os i (cdev_add j ∷ l) =
    if j == i then not (is_neg (os l (cdev_add j))) else has_cdev os i l
has_cdev os i (cdev_del j ∷ l) = if j == i then false else has_cdev os i l
has_cdev os i (_ ∷ l) = has_cdev os i l

-- The device of the slot stands: its node is there, and not null, and so is its character device.
abbrev pub Stands : Os → ℕ → UdfDrv → Log → Type 0
Stands os i d l =
    (device_of os i l ≡ some d.m_device)
    × (is_os_ptr_invalid d.m_device ≡ false)
    × (has_cdev os i l ≡ true)

-- The device of a card: it stands and holds one object, or what it took is freed.
abbrev pub HasDevice : Os → ℕ → Log → Option UdfDrv × Log → Type 0
HasDevice os i l (none, l') = live os l' ≡ live os l
HasDevice os i l (some d, l') =
    (live os l' ≡ live os l + 1) × (d.m_data ≡ none) × (d.can_read ≡ false) × Stands os i d l'

pub main_init-HasDevice : (os : Os) (i : ℕ) (l : Log) → HasDevice os i l (main_init os i l)
unfolding main_init main_exit
main_init-HasDevice os i l = ground arith
