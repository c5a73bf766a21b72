-- ===== src/Driver/Calls.antt =====
-- The kernel functions that test_drv calls, and its devices (test_drv/test_mck_drv.h). A pointer is
-- a number, NULL is 0, and an error pointer is negative.
use mckernel_ostest_arm.Base.{ℕ}
use mckernel_ostest_arm.Base.Int.{ℤ}

-- test_drv/test_suite.list
pub data Suite : Type 0 where
  mmap_dev mmap_dev2 writecombine : Suite

pub data ProcFile : Type 0 where
  devno tp_names : ProcFile

-- A major and a minor number.
abbrev pub DevT : Type 0
DevT = ℕ × ℕ

pub data Call : Type 0 where
  alloc_chrdev_region : ℕ → Call
  unregister_chrdev_region : DevT → ℕ → Call
  class_create : Suite → Call
  class_destroy : ℤ → Call
  cdev_init : Suite → Call
  cdev_add : Suite → DevT → Call
  cdev_del : Suite → Call
  device_create : ℤ → DevT → Call
  device_destroy : ℤ → DevT → Call
  vmalloc_user : ℕ → Call
  vfree : ℤ → Call
  proc_mkdir : Call
  proc_create_data : ProcFile → ℤ → Call
  remove_proc_entry : ProcFile → ℤ → Call
  remove_proc_dir : Call

-- What a call returns, and the major number that alloc_chrdev_region stores.
pub record Reply : Type 0 where
  pub ret : ℤ
  pub major : ℕ

-- `struct test_mck_dev`. The memory behind `private_data` is a byte for each offset.
pub record Dev : Type 0 where
  pub ts_name : Suite
  pub private_data : ℤ
  pub buffer : ℕ → ℕ
  pub devno : DevT
  pub class : ℤ

-- -ENOMEM, -EFAULT
abbrev pub enomem : ℤ
enomem = ℤ.negsuc 11

abbrev pub efault : ℤ
efault = ℤ.negsuc 13
