-- ===== src/Affinity/Cases.antt =====
-- RUN_FUNC of test_mck/src/sched_setaffinity/000.c to 006.c.
use mckernel_ostest_arm.Base.{
  ℕ, zero, suc, Bool, true, false, ◌+◌, ◌-◌, List, [], ◌∷◌, not, Option, none, some, ◌==◌,
  if◌then◌else◌,
}
use mckernel_ostest_arm.Base.Int.{ℤ, pos, negsuc, eq_ℤ, is_zero, is_minus_one}
use mckernel_ostest_arm.Base.Trace.{Env, Proc, pure, call, ◌>>=◌, ◌>>◌}
use mckernel_ostest_arm.Affinity.{
  Event, Answer, Message, cpu_alloc, cpu_free, get_cpu_id, sched_getaffinity, sched_setaffinity,
  write_xg, write_xf, kill, no_num_of_cpus, alloc_failed, getaffinity_failed, setaffinity_failed,
  running_there, not_failed, unexpected_error, undefined_increment, tp_assert, esrch, eperm, efault,
  einval, max_int,
}

-- `x - 1`
abbrev pub pred_ℤ : ℤ → ℤ
pred_ℤ (pos zero) = negsuc 0
pred_ℤ (pos (suc n)) = pos n
pred_ℤ (negsuc n) = negsuc (suc n)

-- `2 <= x`
abbrev pub two_or_more : ℤ → Bool
two_or_more (pos (suc (suc n))) = true
two_or_more x = false

-- The greatest CPU, or the one below it if that is the current one.
abbrev pub migrate_cpu : (num_cpus before : ℤ) → ℤ
migrate_cpu num_cpus before =
    if eq_ℤ (pred_ℤ num_cpus) before then pred_ℤ (pred_ℤ num_cpus) else pred_ℤ num_cpus

-- The asserts on a call that has to fail.
abbrev pub check_refused : (errno : ℕ) → Answer → Option Message
check_refused e a =
    if is_minus_one a.ret then tp_assert (a.errno == e) unexpected_error else some not_failed

-- `cpu_alloc_size` is CPU_ALLOC_SIZE.
module _ (env : Env Event Answer) (cpu_alloc_size : (num_cpus : ℤ) → ℕ) where
  -- CPU_ALLOC, its assert, and what follows.
  unfoldable pub with_set :
      (num_cpus : ℤ) → Proc Event (Option Message) → Proc Event (Option Message)
  with_set num_cpus next = call env (cpu_alloc num_cpus) >>= λ a.
      if is_zero a.ret then pure (some alloc_failed) else next

  -- CPU_FREE and the failing assert after a call that returned -1, or what follows.
  unfoldable pub or_free :
      Message → Proc Event (Option Message) → Answer → Proc Event (Option Message)
  or_free m next a = if is_minus_one a.ret then (call env cpu_free >> pure (some m)) else next

  unfoldable pub run_000 : (num_of_cpus : ℤ) → Proc Event (Option Message)
  run_000 n =
      if is_zero n
      then pure (some no_num_of_cpus)
      else with_set n (
          call env get_cpu_id >>= λ before.
          call env (sched_getaffinity (cpu_alloc_size n)) >>= λ own.
          or_free getaffinity_failed
            (call env (sched_setaffinity (pos 0) (cpu_alloc_size n) (some own.set))
              >>= or_free setaffinity_failed (
                  call env get_cpu_id >>= λ after.
                  call env cpu_free >> pure (tp_assert (eq_ℤ before.ret after.ret) running_there)))
            own)

  unfoldable pub run_001 : (num_of_cpus : ℤ) → Proc Event (Option Message)
  run_001 n =
      if two_or_more n
      then with_set n (
          call env get_cpu_id >>= λ before.
          call env
            (sched_setaffinity (pos 0) (cpu_alloc_size n) (some (migrate_cpu n before.ret ∷ [])))
          >>= or_free setaffinity_failed (
              call env get_cpu_id >>= λ after.
              call env cpu_free
              >> pure (tp_assert (not (eq_ℤ before.ret after.ret)) running_there)))
      else pure (some no_num_of_cpus)

  unfoldable pub run_002 : (num_of_cpus : ℤ) → Proc Event (Option Message)
  run_002 n = call env get_cpu_id >>= λ before.
      if two_or_more n
      then with_set n (
          call env (write_xg 0xffffffff 0xffffffff00000000 0xffff0000ffff 0xffff0000ffff0000)
          >> (call env write_xf
              >> (call env (
                    sched_setaffinity (pos 0) (cpu_alloc_size n)
                      (some (migrate_cpu n before.ret ∷ [])))
                  >>= or_free setaffinity_failed (call env cpu_free >> pure none))))
      else pure (some no_num_of_cpus)

  unfoldable pub run_003 : (num_of_cpus : ℤ) → Proc Event (Option Message)
  run_003 n =
      if is_zero n
      then pure (some no_num_of_cpus)
      else (call env (sched_setaffinity (pos 0) (cpu_alloc_size n) none) >>= λ a.
          pure (check_refused efault a))

  -- The call that has to fail, then CPU_FREE, then the asserts.
  unfoldable pub refused :
      (errno : ℕ) → (pid : ℤ) → (size : ℕ) → List ℤ → Proc Event (Option Message)
  refused e pid size set = call env (sched_setaffinity pid size (some set)) >>= λ a.
      call env cpu_free >> pure (check_refused e a)

  unfoldable pub run_004 : (num_of_cpus : ℤ) → Proc Event (Option Message)
  run_004 n =
      if is_zero n
      then pure (some no_num_of_cpus)
      else with_set n (refused einval (pos 0) 0 (pred_ℤ n ∷ []))

  unfoldable pub run_005 : Proc Event (Option Message)
  run_005 = with_set (pos 1024) (refused einval (pos 0) (cpu_alloc_size (pos 1024)) [])

  -- The search for a number that no process has, with `left` ints to try. As limits.h is not included,
  -- INT_MAX is the greatest unsigned int: after EPERM the loop ends at -1, and it does not end at the
  -- greatest int, whose increment is undefined (`none`).
  unfoldable pub after_kill :
      (pid : ℕ) → (next : Proc Event (Option ℤ)) → Answer → Proc Event (Option ℤ)
  after_kill pid next a =
      if is_minus_one a.ret
      then (if a.errno == esrch
          then pure (some (pos pid))
          else if a.errno == eperm
          then pure (some (negsuc 0))
          else next)
      else next

  unfoldable pub search_pid : (left pid : ℕ) → Proc Event (Option ℤ)
  search_pid zero pid = pure none
  search_pid (suc left) pid = call env (kill pid 0) >>= after_kill pid (search_pid left (pid + 1))

  unfoldable pub after_search : (num_of_cpus : ℤ) → Option ℤ → Proc Event (Option Message)
  after_search n none = pure (some undefined_increment)
  after_search n (some invalid_pid) =
      with_set n (refused esrch invalid_pid (cpu_alloc_size n) (pred_ℤ n ∷ []))

  unfoldable pub run_006 : (num_of_cpus : ℤ) → Proc Event (Option Message)
  run_006 n =
      if is_zero n
      then pure (some no_num_of_cpus)
      else (search_pid (max_int - 1) 2 >>= after_search n)
