-- ===== src/Rlimit/Get.antt =====
-- test_mck/src/getrlimit: a getrlimit_tc names a resource and what is expected of the call. 015.c and 018.c
-- also look at errno, and 017.c goes through a table.
use mckernel_ostest_arm.Base.{
  ℕ, List, [], ◌∷◌, Bool, true, false, Option, none, some, ◌==◌, if◌then◌else◌,
}
use mckernel_ostest_arm.Base.Int.{ℤ, pos, negsuc, eq_ℤ, is_neg}
use mckernel_ostest_arm.Base.Trace.{Env, Proc, pure, call, ◌>>=◌}
use mckernel_ostest_arm.Rlimit.{
  Resource, Event, Answer, Message, tp_assert, einval, enosys, getrlimit, getrlimit_failed,
  invalid_tp_number, errno_different, rlimit_as, rlimit_core, rlimit_cpu, rlimit_data, rlimit_fsize,
  rlimit_locks, rlimit_memlock, rlimit_msgqueue, rlimit_nice, rlimit_nofile, rlimit_nproc,
  rlimit_rss, rlimit_rtprio, rlimit_sigpending, rlimit_stack, rlimit_nlimits,
}

abbrev pub test_getrlimit_success : ℤ
test_getrlimit_success = pos 0

abbrev pub test_getrlimit_failuer : ℤ
test_getrlimit_failuer = negsuc 0

pub record GetrlimitTc : Type 0 where
  pub resource : Resource
  pub expect_result : ℤ
  pub expect_errno : ℕ

-- A test case: its record, and whether its RUN_FUNC compares errno too.
pub record Case : Type 0 where
  pub tc : GetrlimitTc
  pub checks_errno : Bool

abbrev pub check : Case → Answer → Option Message
check c a =
    if eq_ℤ a.ret c.tc.expect_result
    then (if c.checks_errno then tp_assert (a.errno == c.tc.expect_errno) errno_different else none)
    else some getrlimit_failed

module _ (env : Env Event Answer) where
  unfoldable pub run_get : (tc_num : ℤ) → Case → Proc Event (Option Message)
  run_get tc_num c =
      if is_neg tc_num
      then pure (some invalid_tp_number)
      else (call env (getrlimit c.tc.resource) >>= λ a. pure (check c a))

  -- The loop of 017.c; the result is `failed` after it.
  unfoldable pub get_each : (failed : Bool) → List GetrlimitTc → Proc Event Bool
  get_each failed [] = pure failed
  get_each failed (t ∷ rest) = call env (getrlimit t.resource) >>= λ a.
      get_each (if eq_ℤ a.ret t.expect_result then failed else true) rest

  unfoldable pub run_table : (tc_num : ℤ) → List GetrlimitTc → Proc Event (Option Message)
  run_table tc_num tc =
      if is_neg tc_num
      then pure (some invalid_tp_number)
      else (get_each false tc >>= λ failed. pure (if failed then some getrlimit_failed else none))

abbrev pub succeeds : Resource → GetrlimitTc
succeeds r = record { resource = r; expect_result = test_getrlimit_success; expect_errno = 0 }

abbrev pub fails : Resource → (errno : ℕ) → GetrlimitTc
fails r e = record { resource = r; expect_result = test_getrlimit_failuer; expect_errno = e }

abbrev pub case_000 : Case
case_000 = record { tc = fails rlimit_cpu enosys; checks_errno = false }

abbrev pub case_001 : Case
case_001 = record { tc = succeeds rlimit_fsize; checks_errno = false }

abbrev pub case_002 : Case
case_002 = record { tc = fails rlimit_data enosys; checks_errno = false }

abbrev pub case_003 : Case
case_003 = record { tc = succeeds rlimit_stack; checks_errno = false }

abbrev pub case_004 : Case
case_004 = record { tc = fails rlimit_core enosys; checks_errno = false }

abbrev pub case_005 : Case
case_005 = record { tc = fails rlimit_rss enosys; checks_errno = false }

abbrev pub case_006 : Case
case_006 = record { tc = succeeds rlimit_nofile; checks_errno = false }

abbrev pub case_007 : Case
case_007 = record { tc = fails rlimit_nproc enosys; checks_errno = false }

abbrev pub case_008 : Case
case_008 = record { tc = fails rlimit_memlock enosys; checks_errno = false }

abbrev pub case_009 : Case
case_009 = record { tc = fails rlimit_as enosys; checks_errno = false }

abbrev pub case_010 : Case
case_010 = record { tc = succeeds rlimit_locks; checks_errno = false }

abbrev pub case_011 : Case
case_011 = record { tc = fails rlimit_sigpending enosys; checks_errno = false }

abbrev pub case_012 : Case
case_012 = record { tc = fails rlimit_msgqueue enosys; checks_errno = false }

abbrev pub case_013 : Case
case_013 = record { tc = fails rlimit_nice enosys; checks_errno = false }

abbrev pub case_014 : Case
case_014 = record { tc = fails rlimit_rtprio enosys; checks_errno = false }

abbrev pub case_015 : Case
case_015 = record { tc = fails rlimit_nlimits enosys; checks_errno = true }

abbrev pub case_016 : Case
case_016 = record { tc = succeeds rlimit_nproc; checks_errno = false }

abbrev pub table_017 : List GetrlimitTc
table_017 =
    succeeds rlimit_as
    ∷ succeeds rlimit_core
    ∷ succeeds rlimit_cpu
    ∷ succeeds rlimit_data
    ∷ succeeds rlimit_fsize
    ∷ succeeds rlimit_locks
    ∷ succeeds rlimit_memlock
    ∷ succeeds rlimit_msgqueue
    ∷ succeeds rlimit_nice
    ∷ succeeds rlimit_nofile
    ∷ succeeds rlimit_nproc
    ∷ succeeds rlimit_rss
    ∷ succeeds rlimit_rtprio
    ∷ succeeds rlimit_sigpending
    ∷ succeeds rlimit_stack
    ∷ []

abbrev pub case_018 : Case
case_018 = record { tc = fails rlimit_nlimits einval; checks_errno = true }

-- All but 017.c.
abbrev pub cases : List Case
cases =
    case_000 ∷ case_001 ∷ case_002 ∷ case_003 ∷ case_004 ∷ case_005 ∷ case_006 ∷ case_007 ∷ case_008
    ∷ case_009 ∷ case_010 ∷ case_011 ∷ case_012 ∷ case_013 ∷ case_014 ∷ case_015 ∷ case_016
    ∷ case_018 ∷ []
