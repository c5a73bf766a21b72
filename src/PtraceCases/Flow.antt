-- ===== src/PtraceCases/Flow.antt =====
-- What the test cases of test_mck/src/ptrace have in common: the labels `cont` and `out` of
-- parent_func, the wait for a stop, the start of child_func, and RUN_FUNC.
use mckernel_ostest_arm.Base.{ℕ, Bool, ◌&&◌, not, Option, none, some, ◌==◌, if◌then◌else◌}
use mckernel_ostest_arm.Base.Int.{ℤ, pos, negsuc, is_zero, is_minus_one, eq_ℤ}
use mckernel_ostest_arm.Base.Trace.{Env, Proc, pure, call, ◌>>=◌, ◌>>◌}
use mckernel_ostest_arm.Ptrace.Regset.{rewrite_brk_inst}
use mckernel_ostest_arm.PtraceCases.Events.{
  Event, Answer, wait, cont, fork, traceme, brk, checked, minus_one,
}

-- The variables that a test case shares between its functions, by their addresses, which are the
-- same in the child.
pub record Vars : Type 0 where
  pub inst_addr : ℕ
  pub addr : ℕ
  pub buf : ℕ
  pub regno0 : ℕ
  pub regno1 : ℕ
  pub eventpid : ℕ

-- Where parent_func goes on: at `cont` or at `out`, with the value of `ret` there.
pub data Label : Type 0 where
  at_cont at_out : (ret : ℤ) → Label

-- How a wait for the child went: the signal that stopped it, or no stop of this child.
pub data Stop : Type 0 where
  stopped_by : (sig : ℕ) → Stop
  not_stopped : Stop

-- The two ways to go on after a wait.
abbrev pub if_stopped : {A : Type 0} → Stop → A → ((sig : ℕ) → A) → A
if_stopped (stopped_by sig) out go = go sig
if_stopped not_stopped out go = out

-- What RUN_FUNC returns, or the exit status of the child process.
pub data Message : Type 0 where
  fork_failed tp_failed wait_failed mmap_failed sem_init_failed munmap_failed : Message
  not_sigkill not_signal : Message

pub data Ended : Type 0 where
  returned : Option Message → Ended
  exited : ℤ → Ended

-- `(read_val == -1) && errno`
abbrev pub peek_failed : (word errno : ℕ) → Bool
peek_failed word errno = (word == minus_one) && not (errno == 0)

-- The tests of the result of `wait(&status)` and of the status. In the code a child that is not
-- stopped and a failed wait both go to `out`.
abbrev pub stop_of : (cpid : ℤ) → Answer → Stop
stop_of cpid w =
    if not (eq_ℤ w.ret cpid)
    then not_stopped
    else if not w.status.wifstopped
    then not_stopped
    else stopped_by w.status.wstopsig

-- A test whose failure goes to `cont` with `ret` -1.
unfoldable pub or_cont : (fails : Bool) → (next : Proc Event Label) → Proc Event Label
or_cont fails next = if fails then pure (at_cont (negsuc 0)) else next

module _ (env : Env Event Answer) where
  -- PTRACE_CONT on the way: its failure goes to `out`, with `ret` -1.
  unfoldable pub continue_child : (next : Proc Event Label) → Proc Event Label
  continue_child next = do
    c ← call env cont
    if not (is_zero c.ret) then pure (at_out (negsuc 0)) else next

  unfoldable pub wait_stop : (cpid : ℤ) → Proc Event Stop
  wait_stop cpid = do w ← call env wait; pure (stop_of cpid w)

  -- The code at the labels.
  unfoldable pub finish : Label → Proc Event ℤ
  finish (at_cont ret) = do r ← call env cont; pure (if is_zero r.ret then ret else negsuc 0)
  finish (at_out ret) = pure ret

  -- parent_func up to the first request of the test case, which `body` goes on with.
  unfoldable pub trace_child : Vars → (cpid : ℤ) → (body : Proc Event Label) → Proc Event ℤ
  unfolding wait_stop finish
  trace_child v cpid body = do
    s ← wait_stop cpid
    if_stopped s (pure (negsuc 0)) λ sig. do
      rewritten ← checked env (λ on. rewrite_brk_inst on v.inst_addr)
      label ← if not (is_zero rewritten) then pure (at_cont (negsuc 0)) else body
      finish label

  -- child_func: what it does before the brk instruction and after it; `false` is `goto out`.
  unfoldable pub traced_child : (before after : Proc Event Bool) → Proc Event ℤ
  traced_child before after = do
    t ← call env traceme
    if not (is_zero t.ret) then pure (negsuc 0) else do
      ready ← before
      if not ready
          then pure (negsuc 0)
          else do call env brk; ok ← after; pure (if ok then pos 0 else negsuc 0)

  -- The end of RUN_FUNC in the parent.
  unfoldable pub verdict : (func_ret : ℤ) → Proc Event Ended
  verdict func_ret = do
    w ← call env wait
    if is_minus_one w.ret
        then pure (returned (some wait_failed))
        else if not (w.status.wexitstatus == 0)
        then pure (returned (some tp_failed))
        else if not (is_zero func_ret)
        then pure (returned (some tp_failed))
        else pure (returned none)

  -- RUN_FUNC from fork on, with parent_func and child_func.
  unfoldable pub run_case : (ℤ → Proc Event ℤ) → Proc Event ℤ → Proc Event Ended
  unfolding verdict
  run_case parent_func child_func = do
    f ← call env fork
    if is_minus_one f.ret
        then pure (returned (some fork_failed))
        else if is_zero f.ret
        then child_func >>= (λ func_ret. pure (exited func_ret))
        else do func_ret ← parent_func f.ret; verdict func_ret
