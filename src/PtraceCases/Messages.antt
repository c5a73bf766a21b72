-- ===== src/PtraceCases/Messages.antt =====
-- The test cases of test_mck/src/ptrace on what ptrace tells of a stop: PTRACE_SETSIGINFO (013.c)
-- and PTRACE_GETEVENTMSG (015.c).
use mckernel_ostest_arm.Base.{
  ℕ, zero, suc, ◌+◌, ◌-◌, ◌%◌, ◌^◌, Bool, true, ◌&&◌, not, ◌==◌, ltb, if◌then◌else◌,
}
use mckernel_ostest_arm.Base.Int.{ℤ, pos, negsuc, is_zero, is_minus_one, eq_ℤ}
use mckernel_ostest_arm.Base.Trace.{Env, Proc, pure, call, ◌>>=◌, ◌>>◌}
use mckernel_ostest_arm.Ptrace.Calls.{peekdata}
use mckernel_ostest_arm.Ptrace.Regset.{rewrite_brk_inst}
use mckernel_ostest_arm.PtraceCases.Events.{
  Siginfo, Event, Answer, get_siginfo, set_siginfo, set_options, get_eventmsg, fork, waitpid, kill,
  store, traceme, brk, checked, ask, sigkill,
}
use mckernel_ostest_arm.PtraceCases.Flow.{
  Vars, Label, at_cont, at_out, Stop, stop_of, if_stopped, or_cont, continue_child, Ended,
  peek_failed, wait_stop, trace_child, traced_child, run_case,
}

-- `x + 1`; the signal numbers and codes are far from INT_MAX.
abbrev pub succ_ℤ : ℤ → ℤ
succ_ℤ (pos n) = pos (n + 1)
succ_ℤ (negsuc zero) = pos 0
succ_ℤ (negsuc (suc n)) = negsuc n

-- `write_info`. Its other fields are not set in the code; here si_addr is the one that was read.
abbrev pub bumped : Siginfo → Siginfo
bumped info = record info {
  si_signo = succ_ℤ info.si_signo;
  si_errno = succ_ℤ info.si_errno;
  si_code = succ_ℤ info.si_code;
}

-- The three comparisons after the second PTRACE_GETSIGINFO.
abbrev pub same_info : Siginfo → Siginfo → Bool
same_info a b = eq_ℤ a.si_signo b.si_signo && eq_ℤ a.si_errno b.si_errno && eq_ℤ a.si_code b.si_code

-- The conversion of an unsigned long to pid_t.
abbrev pub to_pid : ℕ → ℤ
to_pid word = let w = word % 2 ^ 32 in if ltb w (2 ^ 31) then pos w else negsuc (2 ^ 32 - 1 - w)

-- The conversion of a pid, which is positive, to unsigned long.
abbrev pub pid_word : ℤ → ℕ
pid_word (pos n) = n
pid_word (negsuc n) = 2 ^ 64 - 1 - n

-- PTRACE_O_TRACEFORK
abbrev pub trace_fork : ℕ
trace_fork = 2

module _ (env : Env Event Answer) where
  unfoldable pub child_013 : Proc Event ℤ
  unfolding traced_child
  child_013 = traced_child env (pure true) (pure true)

  unfoldable pub body_013 : Proc Event Label
  body_013 = do
    org ← call env get_siginfo
    or_cont (not (is_zero org.ret)) do
      w ← call env (set_siginfo (bumped org.info))
      or_cont (not (is_zero w.ret)) do
        tmp ← call env get_siginfo
        or_cont (not (is_zero tmp.ret)) (
            or_cont (not (same_info (bumped org.info) tmp.info)) do
              r ← call env (set_siginfo org.info)
              pure (at_cont (if is_zero r.ret then pos 0 else negsuc 0)))

  unfoldable pub parent_013 : Vars → (cpid : ℤ) → Proc Event ℤ
  unfolding trace_child body_013
  parent_013 v cpid = trace_child env v cpid body_013

  unfoldable pub run_013 : Vars → Proc Event Ended
  unfolding run_case parent_013 child_013
  run_013 v = run_case env (parent_013 v) child_013

  -- The grandchild ends with status 0, as a child whose child_func returns 0 does. It is the
  -- process that `fork` returns 0 to.
  unfoldable pub child_015 : Vars → Proc Event ℤ
  child_015 v = do
    t ← call env traceme
    if not (is_zero t.ret) then pure (negsuc 0) else do
      call env brk
      f ← call env fork
      if is_minus_one f.ret
          then pure (negsuc 0)
          else if is_zero f.ret
          then pure (pos 0)
          else call env (store v.eventpid (pid_word f.ret)) >> call env brk >> pure (pos 0)

  -- `waitpid(cpid, &status, 0)`, and the tests of its result and of the status.
  unfoldable pub waitpid_stop : (cpid : ℤ) → Proc Event Stop
  waitpid_stop cpid = do w ← call env (waitpid cpid); pure (stop_of cpid w)

  -- From the second rewrite_brk_inst on.
  unfoldable pub check_eventmsg : Vars → Proc Event Label
  check_eventmsg v = do
    rewritten ← checked env (λ on. rewrite_brk_inst on v.inst_addr)
    or_cont (not (is_zero rewritten)) do
      p ← ask env (peekdata v.eventpid)
      or_cont (peek_failed p.word p.errno) do
        m ← call env get_eventmsg
        or_cont (not (is_zero m.ret)) (
            or_cont (not (p.word == m.word))
              do call env (kill (to_pid m.word) sigkill); pure (at_cont (pos 0)))

  unfoldable pub body_015 : Vars → (cpid : ℤ) → Proc Event Label
  unfolding wait_stop waitpid_stop check_eventmsg
  body_015 v cpid = do
    o ← call env (set_options trace_fork)
    or_cont (not (is_zero o.ret)) do
      continue_child env do
        s1 ← wait_stop env cpid
        if_stopped s1 (pure (at_out (negsuc 0))) λ sig1. do
          continue_child env do
            s2 ← waitpid_stop cpid
            if_stopped s2 (pure (at_out (negsuc 0))) λ sig2. check_eventmsg v

  unfoldable pub parent_015 : Vars → (cpid : ℤ) → Proc Event ℤ
  unfolding trace_child body_015
  parent_015 v cpid = trace_child env v cpid (body_015 v cpid)

  unfoldable pub run_015 : Vars → Proc Event Ended
  unfolding run_case parent_015 child_015
  run_015 v = run_case env (parent_015 v) (child_015 v)
