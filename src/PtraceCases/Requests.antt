-- ===== src/PtraceCases/Requests.antt =====
-- The test cases of test_mck/src/ptrace on registers, options, system calls and the end of the
-- child: 001.c, 008.c, 010.c, 014.c, 016.c and 018.c, and 000.c.
use mckernel_ostest_arm.Base.{ℕ, ◌+◌, Bool, true, not, Option, none, some, ◌==◌, if◌then◌else◌}
use mckernel_ostest_arm.Base.Int.{ℤ, pos, negsuc, is_zero, is_minus_one}
use mckernel_ostest_arm.Base.Trace.{Env, Proc, pure, call, ◌>>=◌, ◌>>◌}
use mckernel_ostest_arm.Ptrace.Regset.{
  rewrite_brk_inst, getregset_check, setregset_check, setregset_child_check, get_check_syscallno,
}
use mckernel_ostest_arm.PtraceCases.Events.{
  Event, Answer, pokedata, set_options, cont, syscall_stop, ptrace_kill, fork, wait, load,
  write_registers, read_registers, getpid, sleep, checked, einval, nr_getpid, sigkill,
}
use mckernel_ostest_arm.PtraceCases.Flow.{
  Vars, Label, at_cont, at_out, if_stopped, or_cont, fork_failed, tp_failed, wait_failed,
  not_sigkill, not_signal, Ended, returned, exited, wait_stop, trace_child, traced_child, run_case,
}

-- PTRACE_O_TRACESYSGOOD to PTRACE_O_TRACEVFORKDONE: the six lowest bits.
abbrev pub options_014 : ℕ
options_014 = 1 + 2 + 4 + 8 + 16 + 32

abbrev pub illegal_option : ℕ
illegal_option = 0x1234567890abcdef

-- `regno`, which starts as 0 in both elements.
abbrev pub regno_of : Option ℕ → ℕ
regno_of none = 0
regno_of (some i) = i

module _ (env : Env Event Answer) where
  abbrev at_once : Proc Event Bool
  at_once = pure true

  -- 000.c: PTRACE_KILL of a process that is not traced; the case passes if the call comes back.
  unfoldable pub run_000 : Proc Event Ended
  run_000 = do
    f ← call env fork
    if is_minus_one f.ret
        then pure (returned (some fork_failed))
        else if is_zero f.ret
        then (call env (sleep 1) >> pure (exited (pos 0)))
        else call env ptrace_kill >> pure (returned none)

  -- 001.c: the parent continues the child, also if it could not remove the brk instruction.
  unfoldable pub child_001 : Proc Event ℤ
  unfolding traced_child
  child_001 = traced_child env at_once at_once

  unfoldable pub parent_001 : Vars → (cpid : ℤ) → Proc Event ℤ
  unfolding wait_stop
  parent_001 v cpid = do
    s ← wait_stop env cpid
    if_stopped s (pure (negsuc 0)) λ sig. do
      checked env (λ on. rewrite_brk_inst on v.inst_addr)
      r ← call env cont
      pure (if is_zero r.ret then pos 0 else negsuc 0)

  unfoldable pub run_001 : Vars → Proc Event Ended
  unfolding run_case parent_001 child_001
  run_001 v = run_case env (parent_001 v) child_001

  -- 008.c: the register sets can be read.
  unfoldable pub child_008 : Proc Event ℤ
  unfolding traced_child
  child_008 = traced_child env (call env write_registers >> at_once) at_once

  unfoldable pub body_008 : Proc Event Label
  body_008 = do
    r ← checked env getregset_check
    pure (at_cont (if is_zero r then pos 0 else negsuc 0))

  unfoldable pub parent_008 : Vars → (cpid : ℤ) → Proc Event ℤ
  unfolding trace_child body_008
  parent_008 v cpid = trace_child env v cpid body_008

  unfoldable pub run_008 : Vars → Proc Event Ended
  unfolding run_case parent_008 child_008
  run_008 v = run_case env (parent_008 v) child_008

  -- 010.c: the register sets can be written. The child reads its registers back, and which ones
  -- were marked from `regno`, where the parent has put it.
  unfoldable pub child_010 : Vars → Proc Event ℤ
  unfolding traced_child
  child_010 v = traced_child env (call env write_registers >> at_once) do
    a ← call env read_registers
    r0 ← call env (load v.regno0)
    r1 ← call env (load v.regno1)
    let seen = setregset_child_check r0.word r1.word a.reply.gregs a.reply.fregs.vregs
    pure (is_zero seen)

  unfoldable pub body_010 : Vars → Proc Event Label
  body_010 v = do
    c ← checked env setregset_check
    or_cont (not (is_zero c.ret)) do
      w0 ← call env (pokedata v.regno0 (regno_of c.gregno))
      or_cont (not (is_zero w0.ret)) do
        w1 ← call env (pokedata v.regno1 (regno_of c.fregno))
        pure (at_cont (if is_zero w1.ret then pos 0 else negsuc 0))

  unfoldable pub parent_010 : Vars → (cpid : ℤ) → Proc Event ℤ
  unfolding trace_child body_010
  parent_010 v cpid = trace_child env v cpid (body_010 v)

  unfoldable pub run_010 : Vars → Proc Event Ended
  unfolding run_case parent_010 child_010
  run_010 v = run_case env (parent_010 v) (child_010 v)

  -- 014.c: the options are taken, and a word with other bits is refused with EINVAL.
  unfoldable pub child_014 : Proc Event ℤ
  unfolding traced_child
  child_014 = traced_child env at_once at_once

  unfoldable pub body_014 : Proc Event Label
  body_014 = do
    s ← call env (set_options options_014)
    if not (is_zero s.ret) then pure (at_cont (negsuc 0)) else do
      r ← call env (set_options illegal_option)
      if is_zero r.ret
          then pure (at_cont (negsuc 0))
          else pure (at_cont (if r.errno == einval then pos 0 else negsuc 0))

  unfoldable pub parent_014 : Vars → (cpid : ℤ) → Proc Event ℤ
  unfolding trace_child body_014
  parent_014 v cpid = trace_child env v cpid body_014

  unfoldable pub run_014 : Vars → Proc Event Ended
  unfolding run_case parent_014 child_014
  run_014 v = run_case env (parent_014 v) child_014

  -- 016.c: PTRACE_SYSCALL stops the child at its next system call.
  unfoldable pub child_016 : Proc Event ℤ
  unfolding traced_child
  child_016 = traced_child env at_once (call env getpid >> at_once)

  unfoldable pub body_016 : (cpid : ℤ) → Proc Event Label
  unfolding wait_stop
  body_016 cpid = do
    r ← call env syscall_stop
    or_cont (not (is_zero r.ret)) do
      s ← wait_stop env cpid
      if_stopped s (pure (at_out (negsuc 0))) λ sig. do
        seen ← checked env (λ on. get_check_syscallno on nr_getpid)
        pure (at_cont (if is_zero seen then pos 0 else negsuc 0))

  unfoldable pub parent_016 : Vars → (cpid : ℤ) → Proc Event ℤ
  unfolding trace_child body_016
  parent_016 v cpid = trace_child env v cpid (body_016 cpid)

  unfoldable pub run_016 : Vars → Proc Event Ended
  unfolding run_case parent_016 child_016
  run_016 v = run_case env (parent_016 v) child_016

  -- 018.c: PTRACE_KILL ends the child by SIGKILL.
  unfoldable pub child_018 : Proc Event ℤ
  unfolding traced_child
  child_018 = traced_child env at_once at_once

  unfoldable pub parent_018 : Vars → (cpid : ℤ) → Proc Event ℤ
  unfolding wait_stop
  parent_018 v cpid = do
    s ← wait_stop env cpid
    if_stopped s (pure (negsuc 0)) λ sig. do
      checked env (λ on. rewrite_brk_inst on v.inst_addr)
      r ← call env ptrace_kill
      pure (if is_zero r.ret then pos 0 else negsuc 0)

  unfoldable pub verdict_018 : (func_ret : ℤ) → Proc Event Ended
  verdict_018 func_ret = do
    w ← call env wait
    if is_minus_one w.ret
        then pure (returned (some wait_failed))
        else if not w.status.wifsignaled
        then pure (returned (some not_signal))
        else if not (w.status.wtermsig == sigkill)
        then pure (returned (some not_sigkill))
        else if not (is_zero func_ret)
        then pure (returned (some tp_failed))
        else pure (returned none)

  unfoldable pub run_018 : Vars → Proc Event Ended
  unfolding parent_018 child_018 verdict_018
  run_018 v = do
    f ← call env fork
    if is_minus_one f.ret
        then pure (returned (some fork_failed))
        else if is_zero f.ret
        then child_018 >>= (λ func_ret. pure (exited func_ret))
        else do func_ret ← parent_018 v f.ret; verdict_018 func_ret
