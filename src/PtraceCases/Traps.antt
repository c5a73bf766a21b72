-- ===== src/PtraceCases/Traps.antt =====
-- The test cases of test_mck/src/ptrace on traps: a brk instruction (006.c), a watchpoint (011.c),
-- a breakpoint (012.c) and single steps (017.c).
use mckernel_ostest_arm.Base.{ℕ, ◌+◌, ◌*◌, ◌/◌, ◌^◌, Bool, ◌&&◌, not, ◌==◌, if◌then◌else◌}
use mckernel_ostest_arm.Base.Int.{ℤ, pos, negsuc, is_zero, eq_ℤ}
use mckernel_ostest_arm.Base.Trace.{Env, Proc, pure, call, ◌>>=◌, ◌>>◌}
use mckernel_ostest_arm.Ptrace.Calls.{peekdata, poketext}
use mckernel_ostest_arm.Ptrace.Regset.{check_trap_addr}
use mckernel_ostest_arm.Ptrace.Debug.{
  set_hw_watchpt, clear_hw_watchpt, set_hw_breakpt, clear_hw_breakpt,
}
use mckernel_ostest_arm.PtraceCases.Events.{
  Siginfo, Event, Answer, peektext, get_siginfo, store, get_inst_addr, do_inst, get_store_inst_addr,
  do_store_inst, checked, ask, minus_one, sigtrap, trap_brkpt, trap_hwbkpt,
}
use mckernel_ostest_arm.PtraceCases.Flow.{
  Vars, Label, at_cont, at_out, if_stopped, or_cont, continue_child, Ended, peek_failed, wait_stop,
  trace_child, traced_child, run_case,
}

-- The checks of si_signo, si_errno, si_code and si_addr.
abbrev pub trapped : (code addr : ℕ) → Siginfo → Bool
trapped code addr info =
    eq_ℤ info.si_signo (pos sigtrap)
    && eq_ℤ info.si_errno (pos 0)
    && eq_ℤ info.si_code (pos code)
    && (info.si_addr == addr)

-- `(inst_val & 0xffffffff00000000UL) | BRK_INST`
abbrev pub with_brk : ℕ → ℕ
with_brk inst_val = inst_val / 2 ^ 32 * 2 ^ 32 + 0xd4200000

module _ (env : Env Event Answer) where
  -- The child's part, but for the instruction that traps: `get` gives its address, and `act` runs
  -- into it.
  unfoldable pub trapping_child : (get act : Event) → Vars → Proc Event ℤ
  unfolding traced_child
  trapping_child get act v =
      traced_child env
        (do a ← call env get; call env (store v.addr a.word); pure (not (a.word == minus_one)))
        (do r ← call env act; pure (is_zero r.ret))

  -- The wait for a stop by SIGTRAP and the checks of its siginfo, before the case goes on to `next`.
  unfoldable pub at_trap :
      (cpid : ℤ) → (code addr : ℕ) → (next : Proc Event Label) → Proc Event Label
  unfolding wait_stop
  at_trap cpid code addr next = do
    s ← wait_stop env cpid
    if_stopped s (pure (at_out (negsuc 0))) λ sig.
        if not (sig == sigtrap) then pure (at_cont (negsuc 0)) else do
          r ← call env get_siginfo
          if not (is_zero r.ret)
              then pure (at_cont (negsuc 0))
              else if not (trapped code addr r.info)
              then pure (at_cont (negsuc 0))
              else next

  -- 006.c: the parent puts a brk instruction in the place of the child's NOP, and takes it away. The
  -- test after PTRACE_PEEKTEXT is one of `read_val`, which holds the address.
  unfoldable pub child_006 : Vars → Proc Event ℤ
  unfolding trapping_child
  child_006 v = trapping_child get_inst_addr do_inst v

  unfoldable pub body_006 : Vars → (cpid : ℤ) → Proc Event Label
  unfolding at_trap
  body_006 v cpid = do
    a ← ask env (peekdata v.addr)
    or_cont (peek_failed a.word a.errno) do
      i ← call env (peektext a.word)
      or_cont (peek_failed a.word i.errno) do
        w ← ask env (poketext a.word (with_brk i.word))
        or_cont (not (is_zero w.ret)) do
          continue_child env do
            at_trap cpid trap_brkpt a.word do
              b ← ask env (poketext a.word i.word)
              pure (at_cont (if is_zero b.ret then pos 0 else negsuc 0))

  unfoldable pub parent_006 : Vars → (cpid : ℤ) → Proc Event ℤ
  unfolding trace_child body_006
  parent_006 v cpid = trace_child env v cpid (body_006 v cpid)

  unfoldable pub run_006 : Vars → Proc Event Ended
  unfolding run_case parent_006 child_006
  run_006 v = run_case env (parent_006 v) (child_006 v)

  -- 011.c: a watchpoint on `buf` stops the child at its store instruction.
  unfoldable pub child_011 : Vars → Proc Event ℤ
  unfolding trapping_child
  child_011 v = trapping_child get_store_inst_addr do_store_inst v

  unfoldable pub body_011 : Vars → (cpid : ℤ) → Proc Event Label
  unfolding at_trap
  body_011 v cpid = do
    a ← ask env (peekdata v.addr)
    or_cont (peek_failed a.word a.errno) do
      s ← checked env (λ on. set_hw_watchpt on v.buf)
      or_cont (not (is_zero s)) do
        continue_child env do
          at_trap cpid trap_hwbkpt v.buf do
            t ← checked env (λ on. check_trap_addr on a.word)
            or_cont (not (is_zero t)) do
              r ← checked env clear_hw_watchpt
              pure (at_cont (if is_zero r then pos 0 else negsuc 0))

  unfoldable pub parent_011 : Vars → (cpid : ℤ) → Proc Event ℤ
  unfolding trace_child body_011
  parent_011 v cpid = trace_child env v cpid (body_011 v cpid)

  unfoldable pub run_011 : Vars → Proc Event Ended
  unfolding run_case parent_011 child_011
  run_011 v = run_case env (parent_011 v) (child_011 v)

  -- 012.c: a breakpoint on the child's NOP stops the child there.
  unfoldable pub child_012 : Vars → Proc Event ℤ
  unfolding trapping_child
  child_012 v = trapping_child get_inst_addr do_inst v

  unfoldable pub body_012 : Vars → (cpid : ℤ) → Proc Event Label
  unfolding at_trap
  body_012 v cpid = do
    a ← ask env (peekdata v.addr)
    or_cont (peek_failed a.word a.errno) do
      s ← checked env (λ on. set_hw_breakpt on a.word)
      or_cont (not (is_zero s)) do
        continue_child env do
          at_trap cpid trap_hwbkpt a.word do
            r ← checked env clear_hw_breakpt
            pure (at_cont (if is_zero r then pos 0 else negsuc 0))

  unfoldable pub parent_012 : Vars → (cpid : ℤ) → Proc Event ℤ
  unfolding trace_child body_012
  parent_012 v cpid = trace_child env v cpid (body_012 v cpid)

  unfoldable pub run_012 : Vars → Proc Event Ended
  unfolding run_case parent_012 child_012
  run_012 v = run_case env (parent_012 v) (child_012 v)
