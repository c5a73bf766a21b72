-- ===== src/Rlimit/Set.antt =====
-- test_mck/src/setrlimit: 000.c to 014.c are one RUN_FUNC with another resource and limit in each, and
-- 015.c sets a limit above the greatest one.
use mckernel_ostest_arm.Base.{ℕ, ◌^◌, ◌-◌, List, [], ◌∷◌, Option, some, ◌==◌, ltb, if◌then◌else◌}
use mckernel_ostest_arm.Base.Int.{is_zero}
use mckernel_ostest_arm.Base.Trace.{Env, Proc, pure, call, ◌>>=◌}
use mckernel_ostest_arm.Rlimit.{
  Resource, Rlimit, Event, Answer, Message, tp_assert, einval, getrlimit, setrlimit,
  getrlimit_failed, setrlimit_failed, rlim_cur_not_set, rlim_max_not_set, max_not_below_cur,
  why_succeeded, errno_not_einval, rlimit_as, rlimit_core, rlimit_cpu, rlimit_data, rlimit_fsize,
  rlimit_locks, rlimit_memlock, rlimit_msgqueue, rlimit_nice, rlimit_nofile, rlimit_nproc,
  rlimit_rss, rlimit_rtprio, rlimit_sigpending, rlimit_stack,
}

pub record Case : Type 0 where
  pub resource : Resource
  pub rlim_cur : ℕ

abbrev pub with_cur : (rlim_cur : ℕ) → (org : Rlimit) → Rlimit
with_cur cur org = record { rlim_cur = cur; rlim_max = org.rlim_max }

module _ (env : Env Event Answer) where
  -- The limit goes back to what it was, and the run ends.
  unfoldable pub restore : (resource : Resource) → (org : Rlimit) → Proc Event (Option Message)
  restore resource org =
      call env (setrlimit resource org) >>= λ a. pure (tp_assert (is_zero a.ret) setrlimit_failed)

  -- The three asserts on the second getrlimit.
  unfoldable pub compare :
      (resource : Resource) → (org set : Rlimit) → Answer → Proc Event (Option Message)
  compare resource org set_rlim a =
      if is_zero a.ret
      then (if set_rlim.rlim_cur == a.rlim.rlim_cur
          then (if set_rlim.rlim_max == a.rlim.rlim_max
              then restore resource org
              else pure (some rlim_max_not_set))
          else pure (some rlim_cur_not_set))
      else pure (some getrlimit_failed)

  unfoldable pub after_set :
      (resource : Resource) → (org set : Rlimit) → Answer → Proc Event (Option Message)
  after_set resource org set_rlim a =
      if is_zero a.ret
      then (call env (getrlimit resource) >>= compare resource org set_rlim)
      else pure (some setrlimit_failed)

  unfoldable pub set_and_restore : Case → (org : Answer) → Proc Event (Option Message)
  set_and_restore c org =
      let set_rlim = with_cur c.rlim_cur org.rlim in
      if is_zero org.ret
      then (call env (setrlimit c.resource set_rlim) >>= after_set c.resource org.rlim set_rlim)
      else pure (some getrlimit_failed)

  unfoldable pub run_set : Case → Proc Event (Option Message)
  run_set c = call env (getrlimit c.resource) >>= set_and_restore c

  -- 015.c
  unfoldable pub after_refused : Answer → Option Message
  after_refused a =
      if is_zero a.ret then some why_succeeded else tp_assert (a.errno == einval) errno_not_einval

  unfoldable pub set_above : Answer → Proc Event (Option Message)
  set_above org =
      let set_rlim = with_cur (2 ^ 64 - 1) org.rlim in
      if is_zero org.ret
      then (if ltb set_rlim.rlim_max set_rlim.rlim_cur
          then (call env (setrlimit rlimit_sigpending set_rlim) >>= λ a. pure (after_refused a))
          else pure (some max_not_below_cur))
      else pure (some getrlimit_failed)

  unfoldable pub case_015 : Proc Event (Option Message)
  case_015 = call env (getrlimit rlimit_sigpending) >>= set_above

abbrev pub case_000 : Case
case_000 = record { resource = rlimit_as; rlim_cur = 2147483648 }

abbrev pub case_001 : Case
case_001 = record { resource = rlimit_core; rlim_cur = 2415919104 }

abbrev pub case_002 : Case
case_002 = record { resource = rlimit_cpu; rlim_cur = 2684354560 }

abbrev pub case_003 : Case
case_003 = record { resource = rlimit_data; rlim_cur = 2952790016 }

abbrev pub case_004 : Case
case_004 = record { resource = rlimit_fsize; rlim_cur = 3221225472 }

abbrev pub case_005 : Case
case_005 = record { resource = rlimit_locks; rlim_cur = 3489660928 }

abbrev pub case_006 : Case
case_006 = record { resource = rlimit_memlock; rlim_cur = 40960 }

abbrev pub case_007 : Case
case_007 = record { resource = rlimit_msgqueue; rlim_cur = 45056 }

abbrev pub case_008 : Case
case_008 = record { resource = rlimit_nice; rlim_cur = 0 }

abbrev pub case_009 : Case
case_009 = record { resource = rlimit_nofile; rlim_cur = 1536 }

abbrev pub case_010 : Case
case_010 = record { resource = rlimit_nproc; rlim_cur = 1792 }

abbrev pub case_011 : Case
case_011 = record { resource = rlimit_rss; rlim_cur = 3758096384 }

abbrev pub case_012 : Case
case_012 = record { resource = rlimit_rtprio; rlim_cur = 0 }

abbrev pub case_013 : Case
case_013 = record { resource = rlimit_sigpending; rlim_cur = 256 }

abbrev pub case_014 : Case
case_014 = record { resource = rlimit_stack; rlim_cur = 8388608 }

abbrev pub cases : List Case
cases =
    case_000 ∷ case_001 ∷ case_002 ∷ case_003 ∷ case_004 ∷ case_005 ∷ case_006 ∷ case_007 ∷ case_008
    ∷ case_009 ∷ case_010 ∷ case_011 ∷ case_012 ∷ case_013 ∷ case_014 ∷ []
