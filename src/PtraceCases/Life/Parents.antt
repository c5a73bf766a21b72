-- ===== src/PtraceCases/Life/Parents.antt =====
-- Every parent_func of test_mck/src/ptrace whose child stops keeps to the rules of ptrace.
use mckernel_ostest_arm.Base.{
  ℕ, ◌≡◌, refl, List, ◌∷◌, some, arith, Bool-cases, inl, inr, if◌then◌else◌,
}
use mckernel_ostest_arm.Base.Int.{ℤ, pos, negsuc, is_zero}
use mckernel_ostest_arm.Base.Trace.{Env, Proc}
use mckernel_ostest_arm.Ptrace.Calls.{Call, Reply}
use mckernel_ostest_arm.Ptrace.Regset.{rewrite_brk_inst}
use mckernel_ostest_arm.PtraceCases.Events.{
  Event, Answer, store, cont, detach, ptrace_kill, attach, kill, sem_wait, sem_post, pwait, cwait,
  get_siginfo, sigstop, checked,
}
use mckernel_ostest_arm.PtraceCases.Flow.{Vars, Label, at_cont, if_stopped, wait_stop, trace_child}
use mckernel_ostest_arm.PtraceCases.Memory.{
  child_magic, parent_magic, body_002, parent_002, body_003, parent_003, body_004, parent_004,
  body_005, parent_005, body_007, parent_007,
}
use mckernel_ostest_arm.PtraceCases.Requests.{
  parent_001, body_008, parent_008, body_010, parent_010, body_014, parent_014, body_016,
  parent_016, parent_018,
}
use mckernel_ostest_arm.PtraceCases.Traps.{
  body_006, parent_006, body_011, parent_011, body_012, parent_012,
}
use mckernel_ostest_arm.PtraceCases.Stepping.{body_017, parent_017}
use mckernel_ostest_arm.PtraceCases.Messages.{body_013, parent_013, body_015, parent_015}
use mckernel_ostest_arm.PtraceCases.Attach.{attach_and, parent_009, parent_019, parent_020}
use mckernel_ostest_arm.PtraceCases.Life.{running, stopped, resumes, plain, kind, life}
use mckernel_ostest_arm.PtraceCases.Life.Blocks.{
  IsKnown, IsReady, IsReleased, checked-life, wait_stop-IsWaited, if_stopped_lem, finish-IsReleased,
  at_cont-IsReady, trace_child-IsReleased,
}
use mckernel_ostest_arm.PtraceCases.Life.Bodies.{
  body_002-IsReady, body_003-IsReady, body_004-IsReady, body_005-IsReady, body_007-IsReady,
  body_008-IsReady, body_010-IsReady, body_013-IsReady, body_014-IsReady,
}
use mckernel_ostest_arm.PtraceCases.Life.Trapping.{
  body_006-IsReady, body_011-IsReady, body_012-IsReady, body_015-IsReady, body_016-IsReady,
  body_017-IsReady,
}

-- The files of test_mck/src/ptrace with a parent_func that waits for a stop and returns an int.
pub data File : Type 0 where
  f001 f002 f003 f004 f005 f006 f007 f008 f009 f010 : File
  f011 f012 f013 f014 f015 f016 f017 f018 f019 f020 : File

module _ (env : Env Event Answer) (v : Vars) (cpid : ℤ) where
  abbrev pub parent_func : File → Proc Event ℤ
  parent_func f001 = parent_001 env v cpid
  parent_func f002 = parent_002 env v cpid
  parent_func f003 = parent_003 env v cpid
  parent_func f004 = parent_004 env v cpid
  parent_func f005 = parent_005 env v cpid
  parent_func f006 = parent_006 env v cpid
  parent_func f007 = parent_007 env v cpid
  parent_func f008 = parent_008 env v cpid
  parent_func f009 = parent_009 env cpid
  parent_func f010 = parent_010 env v cpid
  parent_func f011 = parent_011 env v cpid
  parent_func f012 = parent_012 env v cpid
  parent_func f013 = parent_013 env v cpid
  parent_func f014 = parent_014 env v cpid
  parent_func f015 = parent_015 env v cpid
  parent_func f016 = parent_016 env v cpid
  parent_func f017 = parent_017 env v cpid
  parent_func f018 = parent_018 env v cpid
  parent_func f019 = parent_019 env cpid
  parent_func f020 = parent_020 env cpid

  abbrev rewrite : Env Call Reply → Proc Call ℤ
  rewrite on = rewrite_brk_inst on v.inst_addr

  -- The last request, with which 001.c, 018.c, 019.c and 020.c let the child go.
  let_go :
      (e : Event) (h : List Event)
      → kind e ≡ resumes
      → life env cpid h ≡ some stopped
      → IsReleased env cpid (if is_zero (env h e).ret then pos 0 else negsuc 0, e ∷ h)
  let_go e h is_resume at = elim (Bool-cases (is_zero (env h e).ret)) [
    | inl goes ↦ rw (at, is_resume, goes) ((running, refl), λ z. refl)
    | inr refuses ↦ rw (at, is_resume, refuses) ((stopped, refl), λ z. absurd (ground arith))
  ]

  -- What follows on a wait that ends parent_func if the child has not stopped.
  waited :
      (go : ℕ → Proc Event ℤ) (h : List Event)
      → IsKnown env cpid h
      → ((sig : ℕ) (h : List Event)
          → life env cpid h ≡ some stopped
          → IsReleased env cpid (go sig h))
      → let (s, h1) = wait_stop env cpid h in
        IsReleased env cpid (if_stopped s (λ h'. (negsuc 0, h')) go h1)
  waited go h known follows =
      let (s, h1) = wait_stop env cpid h in
      if_stopped_lem env cpid (IsReleased env cpid) s (λ h'. (negsuc 0, h')) go h1
        (wait_stop-IsWaited env cpid h known) (λ k. (k, λ z. absurd (ground arith)))
        (λ sig. follows sig h1)

  abbrev Safely : (List Event → ℤ × List Event) → Type 0
  Safely parent = (h : List Event) → IsKnown env cpid h → IsReleased env cpid (parent h)

  parent_001-IsReleased : Safely (parent_001 env v cpid)
  unfolding parent_001
  parent_001-IsReleased h known =
      waited _ h known λ sig h1 at.
        let_go cont (checked env rewrite h1).1 refl (checked-life env cpid rewrite h1 at)

  parent_018-IsReleased : Safely (parent_018 env v cpid)
  unfolding parent_018
  parent_018-IsReleased h known = waited _ h known λ sig h1 at.
      let_go ptrace_kill (checked env rewrite h1).1 refl (checked-life env cpid rewrite h1 at)

  -- A call that tells nothing of the child.
  IsKnown-plain :
      (e : Event) (h : List Event) → kind e ≡ plain → IsKnown env cpid h → IsKnown env cpid (e ∷ h)
  IsKnown-plain e h is_plain (l, at) = (l, rw (at, is_plain) refl)

  parent_009-IsReleased : Safely (parent_009 env cpid)
  unfolding parent_009
  parent_009-IsReleased h known =
      let h1 = sem_wait pwait ∷ h in
      let h2 = kill cpid sigstop ∷ h1 in
      let known2 =
        IsKnown-plain (kill cpid sigstop) h1 refl (IsKnown-plain (sem_wait pwait) h refl known) in
      elim (Bool-cases (is_zero (env h1 (kill cpid sigstop)).ret)) [
        | inr fails ↦ rw fails (known2, λ z. absurd (ground arith))
        | inl sent ↦ rw sent (
            waited _ (sem_post cwait ∷ h2) (IsKnown-plain (sem_post cwait) h2 refl known2)
              λ sig h3 at.
                finish-IsReleased env cpid (at_cont _) (get_siginfo ∷ h3)
                  (at_cont-IsReady env cpid _ (get_siginfo ∷ h3) (rw at refl)))
      ]

  -- The common part of 019.c and 020.c, up to the request `e` on the stopped child.
  attached :
      (e : Event)
      → kind e ≡ resumes
      → (h : List Event) → IsKnown env cpid h
      → IsReleased env cpid (attach_and env cpid e h)
  unfolding attach_and
  attached e is_resume h known =
      let h1 = sem_wait pwait ∷ h in
      let h2 = attach ∷ h1 in
      let known2 = IsKnown-plain attach h1 refl (IsKnown-plain (sem_wait pwait) h refl known) in
      elim (Bool-cases (is_zero (env h1 attach).ret)) [
        | inr fails ↦ rw fails (known2, λ z. absurd (ground arith))
        | inl done ↦ rw done (
            waited _ (sem_post cwait ∷ h2) (IsKnown-plain (sem_post cwait) h2 refl known2)
              λ sig h3 at. let_go e h3 is_resume at)
      ]

  traced :
      (body : Proc Event Label)
      → ((h : List Event) → life env cpid h ≡ some stopped → IsReady env cpid (body h))
      → Safely (trace_child env v cpid body)
  traced body ready h known = trace_child-IsReleased env cpid v body h ready known

  pub parent_func-IsReleased : (f : File) → Safely (parent_func f)
  unfolding parent_002 parent_003 parent_004 parent_005 parent_006 parent_007 parent_008 parent_010
      parent_011 parent_012 parent_013 parent_014 parent_015 parent_016 parent_017 parent_019
      parent_020
  parent_func-IsReleased f001 = parent_001-IsReleased
  parent_func-IsReleased f002 = λ h known.
      traced (body_002 env v) (λ h at. body_002-IsReady env cpid h at v)
        (store v.buf parent_magic ∷ h) (IsKnown-plain (store v.buf parent_magic) h refl known)
  parent_func-IsReleased f003 = traced (body_003 env v) (λ h at. body_003-IsReady env cpid h at v)
  parent_func-IsReleased f004 = traced (body_004 env) (λ h at. body_004-IsReady env cpid h at)
  parent_func-IsReleased f005 = λ h known.
      traced (body_005 env v) (λ h at. body_005-IsReady env cpid h at v)
        (store v.buf child_magic ∷ h) (IsKnown-plain (store v.buf child_magic) h refl known)
  parent_func-IsReleased f006 = traced (body_006 env v cpid) (body_006-IsReady env cpid v)
  parent_func-IsReleased f007 = traced (body_007 env) (λ h at. body_007-IsReady env cpid h at)
  parent_func-IsReleased f008 = traced (body_008 env) (λ h at. body_008-IsReady env cpid h at)
  parent_func-IsReleased f009 = parent_009-IsReleased
  parent_func-IsReleased f010 = traced (body_010 env v) (λ h at. body_010-IsReady env cpid h at v)
  parent_func-IsReleased f011 = traced (body_011 env v cpid) (body_011-IsReady env cpid v)
  parent_func-IsReleased f012 = traced (body_012 env v cpid) (body_012-IsReady env cpid v)
  parent_func-IsReleased f013 = traced (body_013 env) (λ h at. body_013-IsReady env cpid h at)
  parent_func-IsReleased f014 = traced (body_014 env) (λ h at. body_014-IsReady env cpid h at)
  parent_func-IsReleased f015 = traced (body_015 env v cpid) (body_015-IsReady env cpid v)
  parent_func-IsReleased f016 = traced (body_016 env cpid) (body_016-IsReady env cpid)
  parent_func-IsReleased f017 = traced (body_017 env v cpid) (body_017-IsReady env cpid v)
  parent_func-IsReleased f018 = parent_018-IsReleased
  parent_func-IsReleased f019 = attached cont refl
  parent_func-IsReleased f020 = attached detach refl
