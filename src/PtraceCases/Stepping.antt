-- ===== src/PtraceCases/Stepping.antt =====
-- 017.c: single steps from the instruction behind the brk that the parent has put in the child. As
-- in 006.c the test after PTRACE_PEEKTEXT is one of `read_val`.
use mckernel_ostest_arm.Base.{ℕ, zero, suc, ◌+◌, ◌%◌, ◌^◌, not, ◌==◌}
use mckernel_ostest_arm.Base.Int.{ℤ, pos, negsuc, is_zero}
use mckernel_ostest_arm.Base.Trace.{Env, Proc, pure, call, ◌>>=◌}
use mckernel_ostest_arm.Ptrace.Calls.{peekdata, poketext}
use mckernel_ostest_arm.PtraceCases.Events.{
  Event, Answer, peektext, single_step, get_inst_addr, do_inst, ask, sigtrap, trap_hwbkpt,
}
use mckernel_ostest_arm.PtraceCases.Flow.{
  Vars, Label, at_cont, at_out, if_stopped, or_cont, continue_child, Ended, peek_failed, wait_stop,
  trace_child, run_case,
}
use mckernel_ostest_arm.PtraceCases.Traps.{trapping_child, at_trap, with_brk}

abbrev pub loop_count : ℕ
loop_count = 5

module _ (env : Env Event Answer) where
  unfoldable pub child_017 : Vars → Proc Event ℤ
  unfolding trapping_child
  child_017 v = trapping_child env get_inst_addr do_inst v

  -- The loop with `left` rounds to go; the additions to `read_val` keep its 64 bits.
  unfoldable pub step_loop : (cpid : ℤ) → (left read_val : ℕ) → Proc Event Label
  unfolding at_trap
  step_loop cpid zero read_val = pure (at_cont (pos 0))
  step_loop cpid (suc left) read_val = do
    s ← call env single_step
    or_cont (not (is_zero s.ret))
        do at_trap env cpid trap_hwbkpt read_val (step_loop cpid left ((read_val + 4) % 2 ^ 64))

  unfoldable pub body_017 : Vars → (cpid : ℤ) → Proc Event Label
  unfolding step_loop wait_stop
  body_017 v cpid = do
    a ← ask env (peekdata v.addr)
    or_cont (peek_failed a.word a.errno) do
      i ← call env (peektext a.word)
      or_cont (peek_failed a.word i.errno) do
        w ← ask env (poketext a.word (with_brk i.word))
        or_cont (not (is_zero w.ret)) do
          continue_child env do
            s ← wait_stop env cpid
            if_stopped s (pure (at_out (negsuc 0))) λ sig. or_cont (not (sig == sigtrap)) do
              b ← ask env (poketext a.word i.word)
              or_cont (not (is_zero b.ret)) do step_loop cpid loop_count ((a.word + 4) % 2 ^ 64)

  unfoldable pub parent_017 : Vars → (cpid : ℤ) → Proc Event ℤ
  unfolding trace_child body_017
  parent_017 v cpid = trace_child env v cpid (body_017 v cpid)

  unfoldable pub run_017 : Vars → Proc Event Ended
  unfolding run_case parent_017 child_017
  run_017 v = run_case env (parent_017 v) (child_017 v)
