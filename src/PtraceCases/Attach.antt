-- ===== src/PtraceCases/Attach.antt =====
-- The test cases of test_mck/src/ptrace whose parent and child meet at two semaphores: a stop by
-- SIGSTOP (009.c), PTRACE_ATTACH (019.c) and PTRACE_DETACH (020.c).
use mckernel_ostest_arm.Base.{Bool, true, ◌&&◌, ◌||◌, not, some, if◌then◌else◌}
use mckernel_ostest_arm.Base.Int.{ℤ, pos, negsuc, is_zero, is_minus_one, eq_ℤ}
use mckernel_ostest_arm.Base.Trace.{Env, Proc, pure, call, ◌>>=◌, ◌>>◌}
use mckernel_ostest_arm.PtraceCases.Events.{
  Siginfo, Sem, pwait, cwait, Event, Answer, get_siginfo, cont, attach, detach, fork, kill,
  mmap_sem, munmap_sem, sem_init, sem_post, sem_wait, traceme, sigstop,
}
use mckernel_ostest_arm.PtraceCases.Flow.{
  at_cont, if_stopped, fork_failed, mmap_failed, sem_init_failed, munmap_failed, Ended, returned,
  exited, wait_stop, finish, verdict,
}

-- The checks of si_signo, si_errno and si_code in 009.c.
abbrev pub stopped_info : Siginfo → Bool
stopped_info info =
    eq_ℤ info.si_signo (pos sigstop) && is_zero info.si_errno && is_zero info.si_code

module _ (env : Env Event Answer) where
  -- Both processes wake the other one up. The child waits second and the parent first.
  abbrev pub meet : (post wait_for : Sem) → Proc Event Bool
  meet post wait_for = do call env (sem_post post); call env (sem_wait wait_for); pure true

  unfoldable pub child_009 : Proc Event ℤ
  child_009 = do
    t ← call env traceme
    if not (is_zero t.ret) then pure (negsuc 0) else meet pwait cwait >> pure (pos 0)

  unfoldable pub parent_009 : (cpid : ℤ) → Proc Event ℤ
  unfolding wait_stop finish
  parent_009 cpid = do
    call env (sem_wait pwait)
    k ← call env (kill cpid sigstop)
    if not (is_zero k.ret) then pure (negsuc 0) else do
      call env (sem_post cwait)
      s ← wait_stop env cpid
      if_stopped s (pure (negsuc 0)) λ sig. do
        i ← call env get_siginfo
        let ok = is_zero i.ret && stopped_info i.info
        finish env (at_cont (if ok then pos 0 else negsuc 0))

  -- parent_func of 019.c and 020.c, which are the same but for the last request.
  unfoldable pub attach_and : (cpid : ℤ) → (last : Event) → Proc Event ℤ
  unfolding wait_stop
  attach_and cpid last = do
    call env (sem_wait pwait)
    a ← call env attach
    if not (is_zero a.ret) then pure (negsuc 0) else do
      call env (sem_post cwait)
      s ← wait_stop env cpid
      if_stopped s (pure (negsuc 0))
          λ sig. do r ← call env last; pure (if is_zero r.ret then pos 0 else negsuc 0)

  unfoldable pub child_019 : Proc Event ℤ
  child_019 = meet pwait cwait >> pure (pos 0)

  unfoldable pub parent_019 : (cpid : ℤ) → Proc Event ℤ
  unfolding attach_and
  parent_019 cpid = attach_and cpid cont

  unfoldable pub child_020 : Proc Event ℤ
  child_020 = meet pwait cwait >> pure (pos 0)

  unfoldable pub parent_020 : (cpid : ℤ) → Proc Event ℤ
  unfolding attach_and
  parent_020 cpid = attach_and cpid detach

  -- Whether both semaphores are unmapped; `|=` gathers the two results.
  abbrev pub unmap_sems : Proc Event Bool
  unmap_sems = do
    c ← call env (munmap_sem cwait)
    p ← call env (munmap_sem pwait)
    pure (is_zero c.ret && is_zero p.ret)

  -- RUN_FUNC of the three files, with parent_func and child_func.
  unfoldable pub run_synced : (ℤ → Proc Event ℤ) → Proc Event ℤ → Proc Event Ended
  unfolding verdict
  run_synced parent_func child_func = do
    m1 ← call env (mmap_sem pwait)
    m2 ← call env (mmap_sem cwait)
    if is_minus_one m1.ret || is_minus_one m2.ret then pure (returned (some mmap_failed)) else do
      i1 ← call env (sem_init pwait)
      i2 ← call env (sem_init cwait)
      if not (is_zero i1.ret && is_zero i2.ret) then pure (returned (some sem_init_failed)) else do
        f ← call env fork
        if is_minus_one f.ret
            then pure (returned (some fork_failed))
            else if is_zero f.ret
            then (child_func >>= λ func_ret.
                unmap_sems >>= λ unmapped. pure (exited (if unmapped then func_ret else negsuc 0)))
            else do
              func_ret ← parent_func f.ret
              unmapped ← unmap_sems
              if unmapped then verdict env func_ret else pure (returned (some munmap_failed))

  unfoldable pub run_009 : Proc Event Ended
  unfolding run_synced parent_009 child_009
  run_009 = run_synced parent_009 child_009

  unfoldable pub run_019 : Proc Event Ended
  unfolding run_synced parent_019 child_019
  run_019 = run_synced parent_019 child_019

  unfoldable pub run_020 : Proc Event Ended
  unfolding run_synced parent_020 child_020
  run_020 = run_synced parent_020 child_020
