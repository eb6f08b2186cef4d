-- ===== src/Kernel/Calls.antt =====
-- The kernel as the drivers see it: error codes, mutexes and the calls that leave the driver.
-- A call of a function outside the drivers is recorded in a log, newest first, and answered by an
-- `Os`, which sees the log so far. Register writes and lock operations are recorded too.
use linux_drv.Prelude.{ℕ, ℤ, negsuc, List}

abbrev pub eperm : ℤ
eperm = negsuc 0

abbrev pub eio : ℤ
eio = negsuc 4

abbrev pub enomem : ℤ
enomem = negsuc 11

abbrev pub efault : ℤ
efault = negsuc 13

abbrev pub eexist : ℤ
eexist = negsuc 16

abbrev pub enodev : ℤ
enodev = negsuc 18

abbrev pub einval : ℤ
einval = negsuc 21

abbrev pub enosys : ℤ
enosys = negsuc 37

abbrev pub enoioctlcmd : ℤ
enoioctlcmd = negsuc 514

-- The drivers' locks, one name for each object. `int_reg` is the spin lock of the mask register.
pub data Mutex : Type 0 where
  card_type int_reg pdm_dev sys_func regs_info : Mutex
  slot sifp udf : ℕ → Mutex

-- A function pointer is named by a number.
pub data Call : Type 0 where
  lock unlock : Mutex → Call
  -- `cb(slot, base)`, `cb(slot)` and `isr(arg)`
  online : ℕ → ℕ → ℕ → Call
  offline : ℕ → ℕ → Call
  isr : ℕ → ℕ → Call
  -- another callback: the function, its argument and a value
  callback : ℕ → ℕ → ℕ → Call
  -- a write of a slot's interrupt mask bit
  int_mask : ℕ → ℕ → Call
  schedule_work : ℕ → ℕ → Call
  -- devices by their minor number
  cdev_add cdev_del device_create device_destroy : ℕ → Call
  alloc_region unregister_region class_create class_destroy irq_init irq_exit : Call
  -- the module's own entry points that are opaque at the place of the call
  ioremap iounmap : ℕ → Call
  kmalloc kfree : Call
  -- what a card's own driver adds to the driver frame, for the file of a slot: the constructors and
  -- destructors of its bottom and top halves, and its interrupt's functions
  bh_ctor bh_dtor th_ctor th_dtor int_handler int_data : ℕ → Call
  remap_pfn : ℕ → ℕ → Call
  copy_to_user copy_from_user wake_up : Call

abbrev pub Log : Type 0
Log = List Call

abbrev pub Os : Type 0
Os = Log → Call → ℤ
