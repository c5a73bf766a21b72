-- ===== src/PtraceCases/Life/Trapping.antt =====
-- The same for the test cases that continue the child and wait for it again.
use mckernel_ostest_arm.Base.{ℕ, zero, suc, ◌+◌, ◌%◌, ◌^◌, refl, ◌∷◌}
use mckernel_ostest_arm.Base.Int.{ℤ, pos}
use mckernel_ostest_arm.Base.Trace.{Env}
use mckernel_ostest_arm.Ptrace.Calls.{peekdata, poketext}
use mckernel_ostest_arm.Ptrace.Regset.{rewrite_brk_inst, check_trap_addr, get_check_syscallno}
use mckernel_ostest_arm.Ptrace.Debug.{
  set_hw_watchpt, clear_hw_watchpt, set_hw_breakpt, clear_hw_breakpt,
}
use mckernel_ostest_arm.PtraceCases.Events.{
  Event, Answer, request, kill, sigkill, get_eventmsg, peektext, set_options, waitpid, cont,
  checked, single_step, syscall_stop, nr_getpid, trap_hwbkpt, trap_brkpt,
}
use mckernel_ostest_arm.PtraceCases.Flow.{Vars}
use mckernel_ostest_arm.PtraceCases.Requests.{body_016}
use mckernel_ostest_arm.PtraceCases.Traps.{with_brk, body_006, body_011, body_012}
use mckernel_ostest_arm.PtraceCases.Stepping.{step_loop, loop_count, body_017}
use mckernel_ostest_arm.PtraceCases.Messages.{
  body_015, check_eventmsg, waitpid_stop, to_pid, trace_fork,
}
use mckernel_ostest_arm.PtraceCases.Life.Blocks.{
  IsReady, at_cont-IsReady, at_out-IsReady, checked-life, stop_of-IsWaited, if_stopped_lem,
}
use mckernel_ostest_arm.PtraceCases.Life.Moves.{
  Follows, after_wait, at_trap-IsReady, or_cont-IsReady, asked, passed, continue_child-IsReady,
  resume_or_cont-IsReady,
}

module _ (env : Env Event Answer) (cpid : ℤ) where
  step_loop-IsReady : (left read_val : ℕ) → Follows env cpid (step_loop env cpid left read_val)
  unfolding step_loop
  step_loop-IsReady zero read_val h at = at_cont-IsReady env cpid (pos 0) h at
  step_loop-IsReady (suc left) read_val h at =
      resume_or_cont-IsReady env cpid single_step _ h at refl (
        at_trap-IsReady env cpid trap_hwbkpt read_val _ (single_step ∷ h)
          (step_loop-IsReady left ((read_val + 4) % 2 ^ 64)))

  pub body_016-IsReady : Follows env cpid (body_016 env cpid)
  unfolding body_016
  body_016-IsReady h at = resume_or_cont-IsReady env cpid syscall_stop _ h at refl (λ known.
      after_wait env cpid _ (syscall_stop ∷ h) known λ sig h1 at1.
        at_cont-IsReady env cpid _ _
          (checked-life env cpid (λ on. get_check_syscallno on nr_getpid) h1 at1))

  -- The address of the instruction in the child.
  abbrev where_is : Vars → Event
  where_is v = request (peekdata v.addr)

  pub body_006-IsReady : (v : Vars) → Follows env cpid (body_006 env v cpid)
  unfolding body_006
  body_006-IsReady v h at =
      let a = (env h (where_is v)).reply.word in
      let h1 = where_is v ∷ h in
      let i = (env h1 (peektext a)).word in
      let h2 = peektext a ∷ h1 in
      let put = request (poketext a (with_brk i)) in
      let at1 = asked env cpid (where_is v) h at refl in
      let at2 = asked env cpid (peektext a) h1 at1 refl in
      let at3 = asked env cpid put h2 at2 refl in
      or_cont-IsReady env cpid _ _ h1 at1 (
        or_cont-IsReady env cpid _ _ h2 at2 (
          or_cont-IsReady env cpid _ _ (put ∷ h2) at3 (
            continue_child-IsReady env cpid _ (put ∷ h2) at3 (
              at_trap-IsReady env cpid trap_brkpt a _ (cont ∷ put ∷ h2) λ h' at'.
                at_cont-IsReady env cpid _ _
                  (asked env cpid (request (poketext a i)) h' at' refl)))))

  pub body_011-IsReady : (v : Vars) → Follows env cpid (body_011 env v cpid)
  unfolding body_011
  body_011-IsReady v h at =
      let a = (env h (where_is v)).reply.word in
      let h1 = where_is v ∷ h in
      let h2 = (checked env (λ on. set_hw_watchpt on v.buf) h1).1 in
      let at1 = asked env cpid (where_is v) h at refl in
      let at2 = checked-life env cpid (λ on. set_hw_watchpt on v.buf) h1 at1 in
      or_cont-IsReady env cpid _ _ h1 at1 (
        or_cont-IsReady env cpid _ _ h2 at2 (
          continue_child-IsReady env cpid _ h2 at2 (
            at_trap-IsReady env cpid trap_hwbkpt v.buf _ (cont ∷ h2) λ h' at'.
              let h3 = (checked env (λ on. check_trap_addr on a) h').1 in
              let at3 = checked-life env cpid (λ on. check_trap_addr on a) h' at' in
              or_cont-IsReady env cpid _ _ h3 at3
                (at_cont-IsReady env cpid _ _ (checked-life env cpid clear_hw_watchpt h3 at3)))))

  pub body_012-IsReady : (v : Vars) → Follows env cpid (body_012 env v cpid)
  unfolding body_012
  body_012-IsReady v h at =
      let a = (env h (where_is v)).reply.word in
      let h1 = where_is v ∷ h in
      let h2 = (checked env (λ on. set_hw_breakpt on a) h1).1 in
      let at1 = asked env cpid (where_is v) h at refl in
      let at2 = checked-life env cpid (λ on. set_hw_breakpt on a) h1 at1 in
      or_cont-IsReady env cpid _ _ h1 at1 (
        or_cont-IsReady env cpid _ _ h2 at2 (
          continue_child-IsReady env cpid _ h2 at2 (
            at_trap-IsReady env cpid trap_hwbkpt a _ (cont ∷ h2) λ h' at'.
              at_cont-IsReady env cpid _ _ (checked-life env cpid clear_hw_breakpt h' at'))))

  pub body_017-IsReady : (v : Vars) → Follows env cpid (body_017 env v cpid)
  unfolding body_017
  body_017-IsReady v h at =
      let a = (env h (where_is v)).reply.word in
      let h1 = where_is v ∷ h in
      let i = (env h1 (peektext a)).word in
      let h2 = peektext a ∷ h1 in
      let put = request (poketext a (with_brk i)) in
      let back = request (poketext a i) in
      let at1 = asked env cpid (where_is v) h at refl in
      let at2 = asked env cpid (peektext a) h1 at1 refl in
      let at3 = asked env cpid put h2 at2 refl in
      or_cont-IsReady env cpid _ _ h1 at1 (
        or_cont-IsReady env cpid _ _ h2 at2 (
          or_cont-IsReady env cpid _ _ (put ∷ h2) at3 (
            continue_child-IsReady env cpid _ (put ∷ h2) at3 λ known.
              after_wait env cpid _ (cont ∷ put ∷ h2) known λ sig h' at'.
                let at4 = asked env cpid back h' at' refl in
                or_cont-IsReady env cpid _ _ h' at' (
                  or_cont-IsReady env cpid _ _ (back ∷ h') at4
                    (step_loop-IsReady loop_count ((a + 4) % 2 ^ 64) (back ∷ h') at4)))))

  check_eventmsg-IsReady : (v : Vars) → Follows env cpid (check_eventmsg env v)
  unfolding check_eventmsg
  check_eventmsg-IsReady v h at =
      let h1 = (checked env (λ on. rewrite_brk_inst on v.inst_addr) h).1 in
      let at1 = checked-life env cpid (λ on. rewrite_brk_inst on v.inst_addr) h at in
      let p = request (peekdata v.eventpid) in
      let at2 = asked env cpid p h1 at1 refl in
      let at3 = asked env cpid get_eventmsg (p ∷ h1) at2 refl in
      let killed = kill (to_pid (env (p ∷ h1) get_eventmsg).word) sigkill in
      or_cont-IsReady env cpid _ _ h1 at1 (
        or_cont-IsReady env cpid _ _ (p ∷ h1) at2 (
          or_cont-IsReady env cpid _ _ (get_eventmsg ∷ p ∷ h1) at3 (
            or_cont-IsReady env cpid _ _ (get_eventmsg ∷ p ∷ h1) at3 (
              at_cont-IsReady env cpid (pos 0) (killed ∷ get_eventmsg ∷ p ∷ h1)
                (passed env cpid killed (get_eventmsg ∷ p ∷ h1) at3 refl)))))

  pub body_015-IsReady : (v : Vars) → Follows env cpid (body_015 env v cpid)
  unfolding body_015 waitpid_stop
  body_015-IsReady v h at =
      let o = set_options trace_fork in
      let at1 = asked env cpid o h at refl in
      or_cont-IsReady env cpid _ _ (o ∷ h) at1 (
        continue_child-IsReady env cpid _ (o ∷ h) at1 λ known.
          after_wait env cpid _ (cont ∷ o ∷ h) known λ sig h1 at2.
            continue_child-IsReady env cpid _ h1 at2 λ (l, known2).
              if_stopped_lem env cpid (IsReady env cpid) _ _ _ (waitpid cpid ∷ cont ∷ h1)
                (stop_of-IsWaited env cpid (cont ∷ h1) (waitpid cpid) l known2 refl)
                (at_out-IsReady env cpid (waitpid cpid ∷ cont ∷ h1))
                (λ sig2. check_eventmsg-IsReady v (waitpid cpid ∷ cont ∷ h1)))
