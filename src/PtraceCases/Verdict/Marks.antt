-- ===== src/PtraceCases/Verdict/Marks.antt =====
-- 010.c: the parent marks the child's registers, and tells the child which ones.
use mckernel_ostest_arm.Base.{ℕ, ◌≡◌, refl, List, [], ◌∷◌, true, length}
use mckernel_ostest_arm.Base.Int.{ℤ, pos, is_zero}
use mckernel_ostest_arm.Base.Trace.{Env}
use mckernel_ostest_arm.Ptrace.Regset.{setregset_check, setregset_child_check}
use mckernel_ostest_arm.Ptrace.Tracee.{Tracee}
use mckernel_ostest_arm.Ptrace.Magic.{setregset_child_check-setregset_check}
use mckernel_ostest_arm.PtraceCases.Events.{Event, Answer, pokedata, requests_on, checked, cont}
use mckernel_ostest_arm.PtraceCases.Flow.{Vars}
use mckernel_ostest_arm.PtraceCases.Requests.{regno_of, body_010, parent_010}
use mckernel_ostest_arm.PtraceCases.Verdict.{
  Ends, Ends-if, Ends-or_cont, rewritten, trace_child-IsDone,
}
use mckernel_ostest_arm.PtraceCases.Verdict.Texts.{not-false}
use mckernel_ostest_arm.PtraceCases.Verdict.Points.{Registers, is_zero-pos}

module _ (env : Env Event Answer) (child : List Event → Tracee) (regs : Registers env child)
    (v : Vars) (cpid : ℤ) where
  -- After `h` the two numbers stand in the child's `regno`, and with them the child's own check passes
  -- on the registers that it has.
  abbrev pub IsMarked : (h : List Event) → Type 0
  IsMarked h =
      (i : ℕ) × (f : ℕ) × (marked : List Event) × (h
        ≡ pokedata v.regno1 f ∷ pokedata v.regno0 i ∷ marked)
      × (is_zero (env marked (pokedata v.regno0 i)).ret ≡ true)
      × (is_zero (env (pokedata v.regno0 i ∷ marked) (pokedata v.regno1 f)).ret ≡ true)
      × (setregset_child_check i f (child marked).gregs (child marked).fregs.vregs ≡ pos 0)

  body_010-Ends :
      (h : List Event)
      → length (child h).gregs.regs ≡ 31
      → length (child h).fregs.vregs ≡ 32
      → Ends env IsMarked (body_010 env v h)
  unfolding body_010
  body_010-Ends h lg lf =
      let on = requests_on env h in
      let (c, calls) = setregset_check on [] in
      let h1 = (checked env setregset_check h).1 in
      let h2 = pokedata v.regno0 (regno_of c.gregno) ∷ h1 in
      Ends-or_cont env IsMarked _ _ h1 λ ok. Ends-or_cont env IsMarked _ _ h2 λ put0.
        Ends-if env IsMarked _ (pokedata v.regno1 (regno_of c.fregno) ∷ h2) λ put1.
          let zero = is_zero-pos c.ret (not-false _ ok) in
          let (i, f, is_i, is_f, passes) =
            setregset_child_check-setregset_check on (child h) (regs.works h) [] lg lf zero in
          (
            regno_of c.gregno,
            regno_of c.fregno,
            h1,
            refl,
            not-false _ put0,
            put1,
            rw (regs.carries h calls, is_i, is_f) passes,
          )

  -- On a child whose requests work, with 31 general and 32 floating-point registers after
  -- rewrite_brk_inst: if parent_func of 010.c returns 0, it has written two numbers to the child's
  -- `regno` with which the child's own check passes on the registers that it then has, and
  -- continues the child last of all.
  pub parent_010-marks :
      (start : List Event)
      → length (child (rewritten env v start)).gregs.regs ≡ 31
      → length (child (rewritten env v start)).fregs.vregs ≡ 32
      → (parent_010 env v cpid start).0 ≡ pos 0
      → (h : List Event) × IsMarked h
        × ((parent_010 env v cpid start).1 ≡ cont ∷ h)
        × (is_zero (env h cont).ret ≡ true)
  unfolding parent_010
  parent_010-marks start lg lf =
      trace_child-IsDone env IsMarked v cpid (body_010 env v) start
        (λ _. body_010-Ends (rewritten env v start) lg lf)
