-- ===== src/Affinity.antt =====
-- The test cases of test_mck/src/sched_setaffinity in one process: 000.c to 006.c.
pub mod Cases
pub mod Released
pub mod Moved
mod Tests
use mckernel_ostest_arm.Base.{ℕ, List, Bool, Option, none, some, if◌then◌else◌}
use mckernel_ostest_arm.Base.Int.{ℤ}

-- The calls; a set of CPUs is given by the numbers that CPU_SET_S has put in it since CPU_ZERO_S, and
-- `none` is the invalid address.
pub data Event : Type 0 where
  cpu_alloc : (num_cpus : ℤ) → Event
  cpu_free : Event
  get_cpu_id : Event
  sched_getaffinity : (size : ℕ) → Event
  sched_setaffinity : (pid : ℤ) → (size : ℕ) → (set : Option (List ℤ)) → Event
  write_xg : (xg0 xg1 xg2 xg3 : ℕ) → Event
  write_xf : Event
  kill : (pid sig : ℕ) → Event

-- What a call returns, errno after it, and the set that sched_getaffinity stores.
pub record Answer : Type 0 where
  pub ret : ℤ
  pub errno : ℕ
  pub set : List ℤ

-- What ends a run before its `return NULL`: a failing assert, or an increment that C leaves undefined.
pub data Message : Type 0 where
  no_num_of_cpus alloc_failed getaffinity_failed setaffinity_failed : Message
  running_there not_failed unexpected_error undefined_increment : Message

abbrev pub tp_assert : Bool → Message → Option Message
tp_assert ok m = if ok then none else some m

abbrev pub esrch : ℕ
esrch = 3

abbrev pub eperm : ℕ
eperm = 1

abbrev pub efault : ℕ
efault = 14

abbrev pub einval : ℕ
einval = 22

-- The greatest int.
abbrev pub max_int : ℕ
max_int = 2147483647
