-- ===== src/PtraceCases/Device.antt =====
-- 021.c: PTRACE_POKEDATA writes to a device that the child has mapped. The child sends the address of
-- its map as text through a pipe.
use mckernel_ostest_arm.Base.{not, Option, none, some, ◌==◌, if◌then◌else◌}
use mckernel_ostest_arm.Base.Int.{ℤ, pos, negsuc, is_zero, is_neg, is_minus_one, eq_ℤ}
use mckernel_ostest_arm.Base.Trace.{Env, Proc, pure, call, ◌>>=◌, ◌>>◌}
use mckernel_ostest_arm.Ptrace.Regset.{rewrite_brk_inst}
use mckernel_ostest_arm.PtraceCases.Events.{
  Event, Answer, pokedata, cont, fork, wait, load, traceme, brk, pipe, read_pipe, write_pipe,
  close_pipe, strtoul, open_dev, reset_dev, mmap_dev, clear_dev, snprintf, munmap_dev, close_dev,
  checked, minus_one,
}
use mckernel_ostest_arm.PtraceCases.Flow.{Vars}

-- The messages of the asserts and of parent_func.
pub data Message : Type 0 where
  open_error ioctl_error mmap_error snprintf_error write_error traceme_error pokedata_failed :
      Message
  read_error wait_error not_stopped pokedata_error cont_error : Message
  pipe_error fork_error not_exited exit_status : Message

-- What RUN_FUNC returns, or the exit status of the child process.
pub data Ended : Type 0 where
  returned : Option Message → Ended
  exited : ℤ → Ended

module _ (env : Env Event Answer) where
  unfoldable pub child_021 : Proc Event (Option Message)
  child_021 = do
    o ← call env open_dev
    if is_minus_one o.ret then pure (some open_error) else do
      i ← call env reset_dev
      if is_minus_one i.ret then pure (some ioctl_error) else do
        m ← call env mmap_dev
        if m.word == minus_one then pure (some mmap_error) else do
          call env clear_dev
          p ← call env snprintf
          if is_neg p.ret then pure (some snprintf_error) else do
            w ← call env write_pipe
            if is_minus_one w.ret then pure (some write_error) else do
              t ← call env traceme
              if is_minus_one t.ret then pure (some traceme_error) else do
                call env brk
                d ← call env (load m.word)
                if d.word == 0
                    then pure (some pokedata_failed)
                    else do call env munmap_dev; call env close_dev; pure none

  -- The code at the label `cont`, with `msg`.
  unfoldable pub cont_with : (msg : Option Message) → Proc Event (Option Message)
  cont_with msg = do c ← call env cont; pure (if is_minus_one c.ret then some cont_error else msg)

  unfoldable pub parent_021 : Vars → (cpid : ℤ) → Proc Event (Option Message)
  unfolding cont_with
  parent_021 v cpid = do
    r ← call env read_pipe
    if is_minus_one r.ret then pure (some read_error) else do
      devmap ← call env strtoul
      w ← call env wait
      if not (eq_ℤ w.ret cpid)
          then cont_with (some wait_error)
          else if not w.status.wifstopped
          then cont_with (some not_stopped)
          else do
            rewritten ← checked env (λ on. rewrite_brk_inst on v.inst_addr)
            if not (is_zero rewritten) then cont_with none else do
              p ← call env (pokedata devmap.word 0xffffffff)
              cont_with (if is_minus_one p.ret then some pokedata_error else none)

  -- Both processes close the end of the pipe that they do not use, and the other one at last.
  unfoldable pub run_021 : Vars → Proc Event Ended
  unfolding parent_021 child_021
  run_021 v = do
    p ← call env pipe
    if not (is_zero p.ret) then pure (returned (some pipe_error)) else do
      f ← call env fork
      if is_minus_one f.ret
          then pure (returned (some fork_error))
          else if is_zero f.ret
          then (call env close_pipe >> child_021 >>= λ msg.
              call env close_pipe >> pure (exited (elim msg [ none ↦ pos 0 | some m ↦ negsuc 0 ])))
          else do
            call env close_pipe
            msg ← parent_021 v f.ret
            call env close_pipe
            elim msg [
              | some m ↦ pure (returned (some m))
              | none ↦ do
                w ← call env wait
                if is_minus_one w.ret
                    then pure (returned (some wait_error))
                    else if not w.status.wifexited
                    then pure (returned (some not_exited))
                    else if not (w.status.wexitstatus == 0)
                    then pure (returned (some exit_status))
                    else pure (returned none)
            ]
