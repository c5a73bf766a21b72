-- ===== src/Rlimit.antt =====
-- The test cases of test_mck/src/setrlimit and getrlimit: the resources, the calls and what they answer.
pub mod Set
pub mod Get
pub mod Kernel
pub mod Restored
pub mod Verdicts
mod Tests
use mckernel_ostest_arm.Base.{ℕ, Bool, Option, none, some, ◌==◌, if◌then◌else◌}
use mckernel_ostest_arm.Base.Int.{ℤ}

pub data Resource : Type 0 where
  rlimit_as rlimit_core rlimit_cpu rlimit_data rlimit_fsize rlimit_locks rlimit_memlock : Resource
  rlimit_msgqueue rlimit_nice rlimit_nofile rlimit_nproc rlimit_rss rlimit_rtprio : Resource
  rlimit_sigpending rlimit_stack rlimit_nlimits : Resource

pub record Rlimit : Type 0 where
  pub rlim_cur : ℕ
  pub rlim_max : ℕ

pub data Event : Type 0 where
  getrlimit : Resource → Event
  setrlimit : Resource → Rlimit → Event

-- What a call returns, errno after it, and what is at the pointer of getrlimit after it.
pub record Answer : Type 0 where
  pub ret : ℤ
  pub errno : ℕ
  pub rlim : Rlimit

pub data Message : Type 0 where
  getrlimit_failed setrlimit_failed rlim_cur_not_set rlim_max_not_set : Message
  max_not_below_cur why_succeeded errno_not_einval : Message
  invalid_tp_number errno_different : Message

-- tp_assert, and what follows it when it holds.
abbrev pub tp_assert : Bool → Message → Option Message
tp_assert ok m = if ok then none else some m

abbrev pub einval : ℕ
einval = 22

abbrev pub enosys : ℕ
enosys = 38
