-- ===== src/PtraceCases/Memory.antt =====
-- The test cases of test_mck/src/ptrace on the child's memory: 002.c to 005.c and 007.c.
use mckernel_ostest_arm.Base.{ℕ, ◌/◌, ◌%◌, ◌^◌, Bool, true, ◌&&◌, not, ◌==◌, if◌then◌else◌}
use mckernel_ostest_arm.Base.Int.{ℤ, pos, negsuc, is_zero}
use mckernel_ostest_arm.Base.Trace.{Env, Proc, pure, call, ◌>>=◌, ◌>>◌}
use mckernel_ostest_arm.Ptrace.Calls.{peekdata}
use mckernel_ostest_arm.Ptrace.Regset.{nop_inst}
use mckernel_ostest_arm.PtraceCases.Events.{
  Event, Answer, peektext, peekuser, pokedata, pokeuser, load, store, get_inst_addr, ask, eio,
  minus_one,
}
use mckernel_ostest_arm.PtraceCases.Flow.{
  Vars, Label, at_cont, Ended, peek_failed, trace_child, traced_child, run_case,
}

-- CHILD_MAGIC and PARENT_MAGIC of 002.c and 005.c
abbrev pub child_magic : ℕ
child_magic = 0x1234567890abcdef

abbrev pub parent_magic : ℕ
parent_magic = 0xffaaffaaffaaffaa

module _ (env : Env Event Answer) where
  -- The start of a child that stops at once, and an end without a check.
  abbrev pub at_once : Proc Event Bool
  at_once = pure true

  -- 002.c: PTRACE_PEEKDATA reads the child's `buf`, and not the parent's.
  unfoldable pub child_002 : Vars → Proc Event ℤ
  unfolding traced_child
  child_002 v =
      traced_child env (call env (store v.buf child_magic) >> at_once)
        do b ← call env (load v.buf); pure (b.word == child_magic)

  unfoldable pub body_002 : Vars → Proc Event Label
  body_002 v = do
    r ← ask env (peekdata v.buf)
    if peek_failed r.word r.errno then pure (at_cont (negsuc 0)) else do
      b ← call env (load v.buf)
      if not (b.word == parent_magic)
          then pure (at_cont (negsuc 0))
          else pure (at_cont (if r.word == child_magic then pos 0 else negsuc 0))

  unfoldable pub parent_002 : Vars → (cpid : ℤ) → Proc Event ℤ
  unfolding trace_child body_002
  parent_002 v cpid = do call env (store v.buf parent_magic); trace_child env v cpid (body_002 v)

  unfoldable pub run_002 : Vars → Proc Event Ended
  unfolding run_case parent_002 child_002
  run_002 v = run_case env (parent_002 v) (child_002 v)

  -- 003.c: PTRACE_PEEKTEXT reads the child's NOP. The result of get_or_do_inst is not tested.
  unfoldable pub child_003 : Vars → Proc Event ℤ
  unfolding traced_child
  child_003 v =
      traced_child env (do a ← call env get_inst_addr; call env (store v.addr a.word); at_once)
        at_once

  unfoldable pub body_003 : Vars → Proc Event Label
  body_003 v = do
    a ← ask env (peekdata v.addr)
    if peek_failed a.word a.errno then pure (at_cont (negsuc 0)) else do
      r ← call env (peektext a.word)
      if peek_failed r.word r.errno
          then pure (at_cont (negsuc 0))
          else pure (at_cont (if r.word / 2 ^ 32 % 2 ^ 32 == nop_inst then pos 0 else negsuc 0))

  unfoldable pub parent_003 : Vars → (cpid : ℤ) → Proc Event ℤ
  unfolding trace_child body_003
  parent_003 v cpid = trace_child env v cpid (body_003 v)

  unfoldable pub run_003 : Vars → Proc Event Ended
  unfolding run_case parent_003 child_003
  run_003 v = run_case env (parent_003 v) (child_003 v)

  -- 004.c and 007.c: PTRACE_PEEKUSER and PTRACE_POKEUSER are refused with EIO.
  unfoldable pub child_004 : Proc Event ℤ
  unfolding traced_child
  child_004 = traced_child env at_once at_once

  unfoldable pub body_004 : Proc Event Label
  body_004 = do
    r ← call env (peekuser 0)
    if not (r.word == minus_one) && (r.errno == 0)
        then pure (at_cont (negsuc 0))
        else pure (at_cont (if r.errno == eio then pos 0 else negsuc 0))

  unfoldable pub parent_004 : Vars → (cpid : ℤ) → Proc Event ℤ
  unfolding trace_child body_004
  parent_004 v cpid = trace_child env v cpid body_004

  unfoldable pub run_004 : Vars → Proc Event Ended
  unfolding run_case parent_004 child_004
  run_004 v = run_case env (parent_004 v) child_004

  unfoldable pub child_007 : Proc Event ℤ
  unfolding traced_child
  child_007 = traced_child env at_once at_once

  unfoldable pub body_007 : Proc Event Label
  body_007 = do
    r ← call env (pokeuser 0 0)
    if not (r.word == minus_one) && (r.errno == 0)
        then pure (at_cont (negsuc 0))
        else pure (at_cont (if r.errno == eio then pos 0 else negsuc 0))

  unfoldable pub parent_007 : Vars → (cpid : ℤ) → Proc Event ℤ
  unfolding trace_child body_007
  parent_007 v cpid = trace_child env v cpid body_007

  unfoldable pub run_007 : Vars → Proc Event Ended
  unfolding run_case parent_007 child_007
  run_007 v = run_case env (parent_007 v) child_007

  -- 005.c: PTRACE_POKEDATA writes the child's `buf`, and not the parent's.
  unfoldable pub child_005 : Vars → Proc Event ℤ
  unfolding traced_child
  child_005 v =
      traced_child env (call env (store v.buf child_magic) >> at_once)
        do b ← call env (load v.buf); pure (b.word == parent_magic)

  unfoldable pub body_005 : Vars → Proc Event Label
  body_005 v = do
    w ← call env (pokedata v.buf parent_magic)
    if not (is_zero w.ret) then pure (at_cont (negsuc 0)) else do
      b ← call env (load v.buf)
      pure (at_cont (if b.word == child_magic then pos 0 else negsuc 0))

  unfoldable pub parent_005 : Vars → (cpid : ℤ) → Proc Event ℤ
  unfolding trace_child body_005
  parent_005 v cpid = do call env (store v.buf child_magic); trace_child env v cpid (body_005 v)

  unfoldable pub run_005 : Vars → Proc Event Ended
  unfolding run_case parent_005 child_005
  run_005 v = run_case env (parent_005 v) (child_005 v)
