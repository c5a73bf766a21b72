-- ===== src/PtraceCases/Life/Bodies.antt =====
-- What the test cases between the wait and their labels know of the child.
use mckernel_ostest_arm.Base.{◌≡◌, List, some, arith}
use mckernel_ostest_arm.Base.Int.{ℤ}
use mckernel_ostest_arm.Base.Trace.{Env}
use mckernel_ostest_arm.Ptrace.Regset.{getregset_check, setregset_check}
use mckernel_ostest_arm.PtraceCases.Events.{Event, Answer}
use mckernel_ostest_arm.PtraceCases.Flow.{Vars, or_cont}
use mckernel_ostest_arm.PtraceCases.Memory.{body_002, body_003, body_004, body_005, body_007}
use mckernel_ostest_arm.PtraceCases.Requests.{body_008, body_010, body_014}
use mckernel_ostest_arm.PtraceCases.Messages.{body_013}
use mckernel_ostest_arm.PtraceCases.Life.{stopped, life}
use mckernel_ostest_arm.PtraceCases.Life.Blocks.{IsReady, checked-life}

module _ (env : Env Event Answer) (cpid : ℤ) (h : List Event)
    (at : life env cpid h ≡ some stopped) where
  pub body_002-IsReady : (v : Vars) → IsReady env cpid (body_002 env v h)
  unfolding body_002 IsReady
  body_002-IsReady v = ground arith

  pub body_003-IsReady : (v : Vars) → IsReady env cpid (body_003 env v h)
  unfolding body_003 IsReady
  body_003-IsReady v = ground arith

  pub body_004-IsReady : IsReady env cpid (body_004 env h)
  unfolding body_004 IsReady
  body_004-IsReady = ground arith

  pub body_005-IsReady : (v : Vars) → IsReady env cpid (body_005 env v h)
  unfolding body_005 IsReady
  body_005-IsReady v = ground arith

  pub body_007-IsReady : IsReady env cpid (body_007 env h)
  unfolding body_007 IsReady
  body_007-IsReady = ground arith

  pub body_008-IsReady : IsReady env cpid (body_008 env h)
  unfolding body_008 IsReady
  body_008-IsReady = checked-life env cpid getregset_check h at

  pub body_010-IsReady : (v : Vars) → IsReady env cpid (body_010 env v h)
  unfolding body_010 or_cont IsReady
  body_010-IsReady v = let at1 = checked-life env cpid setregset_check h at in ground arith

  pub body_013-IsReady : IsReady env cpid (body_013 env h)
  unfolding body_013 or_cont IsReady
  body_013-IsReady = ground arith

  pub body_014-IsReady : IsReady env cpid (body_014 env h)
  unfolding body_014 IsReady
  body_014-IsReady = ground arith
