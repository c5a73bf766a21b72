-- ===== src/Mempolicy.antt =====
-- The test cases of test_mck/src/mbind, set_mempolicy and get_mempolicy. Each RUN_FUNC is a sequence of
-- a few kinds of statements, and a failing tp_assert ends it.
pub mod Constants
pub mod Run
pub mod Bind
pub mod Assign
pub mod Fetch
pub mod Interleave
pub mod Regions
pub mod Ownership
pub mod Balance
pub mod Documented
pub mod Sound
mod Tests
use mckernel_ostest_arm.Base.{
  ℕ, zero, suc, ◌+◌, ◌-◌, ◌%◌, ◌/◌, ◌^◌, List, [], ◌∷◌, ◌++◌, map, Bool, true, false, not, Option,
  none, some, ◌==◌, ltb, get_or, set, if◌then◌else◌,
}
use mathlib.Core.Option
use mckernel_ostest_arm.Base.Int.{ℤ, pos, negsuc, eq_ℤ, is_zero, is_minus_one}
use mckernel_ostest_arm.Base.Trace.{Env, Proc, pure, call, ◌>>=◌, ◌>>◌}
use mckernel_ostest_arm.Numa.{Reply, create_node_mask, node_mask_check}
use mckernel_ostest_arm.Numa

-- What a mask argument points to: nothing, an unsigned long, node_mask, or the mask that the test case
-- passes to the kernel, set_node_mask or mbind_node_mask.
pub data Mask : Type 0 where
  null own other : Mask
  word : ℕ → Mask

-- An address that is known before the run, or the one that mmap has given for `buf`.
pub data Addr : Type 0 where
  at : ℕ → Addr
  mapped : Addr

-- What is asserted of a call: that it succeeds, or fails, with an errno, with any, or with any other.
pub data Expect : Type 0 where
  succeeds fails : Expect
  refused refused_not : (errno : ℕ) → Expect

-- The statements of the RUN_FUNCs.
pub data Step : Type 0 where
  need_max_node set_mode fill_other all_zero touch_buf : Step
  need_nodes : (least : ℕ) → Step
  create create_other : (max_node : ℕ) → Step
  put put_other : (value : ℕ) → Step
  bind : Addr → (len : ℕ) → (mode : ℤ) → Mask → (maxnode flags : ℕ) → Expect → Step
  assign : (mode : ℤ) → Mask → (maxnode : ℕ) → Expect → Step
  fetch : (wants_mode : Bool) → Mask → (maxnode : ℕ) → Addr → (flags : ℕ) → Expect → Step
  mode_is : ℤ → Step
  word_is : ℕ → Step
  is_full : (num_bits : ℕ) → Step
  mode_below : (max_node : ℕ) → Step
  map_buf : (len : ℕ) → (checked : Bool) → Step
  unmap_buf : (len : ℕ) → Step

-- The calls, with what their pointers point to before them; `free` says whether it is given a mask.
pub data Event : Type 0 where
  numa : Numa.Call → Event
  mbind : (addr len : ℕ) → (mode : ℤ) → (mask : Option (List ℕ)) → (maxnode flags : ℕ) → Event
  set_mempolicy : (mode : ℤ) → (mask : Option (List ℕ)) → (maxnode : ℕ) → Event
  get_mempolicy : (mode : Option ℤ) → (mask : Option (List ℕ)) → (maxnode addr flags : ℕ) → Event
  mmap : (len : ℕ) → Event
  munmap : (addr len : ℕ) → Event
  store : (addr : ℕ) → Event
  free : (given : Bool) → Event

-- What a call returns, errno after it, and what is at the two pointers of get_mempolicy after it.
pub record Answer : Type 0 where
  pub ret : ℤ
  pub errno : ℕ
  pub mode : ℤ
  pub mask : List ℕ

pub data Message : Type 0 where
  no_max_node max_node_error malloc_error mmap_error : Message
  not_succeeded not_failed wrong_errno mode_error node_mask_error check_error : Message

-- An assert that fails, or an undefined shift.
pub data Stop : Type 0 where
  failed : Message → Stop
  undefined : Stop

pub record Vars : Type 0 where
  pub node_mask : Option (List ℕ)
  pub other_mask : Option (List ℕ)
  pub nr_node_mask : ℕ
  pub mode : ℤ
  pub buf : ℤ

-- A test case: its RUN_FUNC, which of node_mask and the other mask its TEARDOWN_FUNC frees, and the
-- length that it unmaps from `buf`, unless that is MAP_FAILED.
pub record Case : Type 0 where
  pub steps : List Step
  pub frees_own : Bool
  pub frees_other : Bool
  pub unmaps : Option ℕ

-- TEARDOWN_EMPTY, and the teardown that frees node_mask alone.
abbrev pub no_teardown : List Step → Case
no_teardown steps = record { steps = steps; frees_own = false; frees_other = false; unmaps = none }

abbrev pub frees_node_mask : List Step → Case
frees_node_mask steps = record {
  steps = steps;
  frees_own = true;
  frees_other = false;
  unmaps = none;
}

-- The static and local variables before the run.
abbrev pub at_start : Vars
at_start = record {
  node_mask = none;
  other_mask = none;
  nr_node_mask = 0;
  mode = negsuc 0;
  buf = negsuc 0;
}
