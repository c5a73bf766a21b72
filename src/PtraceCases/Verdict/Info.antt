-- ===== src/PtraceCases/Verdict/Info.antt =====
-- 013.c changes the siginfo of the child's stop and puts it back.
use mckernel_ostest_arm.Base.{◌≡◌, sym, ◌∙◌, List, ◌∷◌, true}
use mckernel_ostest_arm.Base.Int.{ℤ, pos, is_zero}
use mckernel_ostest_arm.Base.Trace.{Env}
use mckernel_ostest_arm.PtraceCases.Events.{Siginfo, Event, Answer, cont, get_siginfo, set_siginfo}
use mckernel_ostest_arm.PtraceCases.Flow.{Vars}
use mckernel_ostest_arm.PtraceCases.Messages.{bumped, same_info, body_013, parent_013}
use mckernel_ostest_arm.PtraceCases.Verdict.Texts.{not-false}
use mckernel_ostest_arm.PtraceCases.Verdict.{
  Ends, Ends-if, Ends-or_cont, rewritten, trace_child-IsDone,
}

-- What ptrace documents of the two requests: `info` is the siginfo of the stop after a history.
pub record Signals (env : Env Event Answer) (info : List Event → Siginfo) : Type 0 where
  pub gets : (h : List Event) → (env h get_siginfo).info ≡ info h
  pub keeps : (h : List Event) → info (get_siginfo ∷ h) ≡ info h
  pub sets :
      (h : List Event) (i : Siginfo)
      → is_zero (env h (set_siginfo i)).ret ≡ true
      → info (set_siginfo i ∷ h) ≡ i

module _ (env : Env Event Answer) (info : List Event → Siginfo) (signals : Signals env info) where
  -- The request has changed the siginfo at some time, after `changed`, and it is as it was at last.
  abbrev pub IsRestored : (start h : List Event) → Type 0
  IsRestored start h =
      (info h ≡ info start)
      × (changed : List Event) × (same_info (bumped (info start)) (info changed) ≡ true)

  body_013-Ends : (h : List Event) → Ends env (IsRestored h) (body_013 env h)
  unfolding body_013
  body_013-Ends h =
      let org = (env h get_siginfo).info in
      let h1 = get_siginfo ∷ h in
      let h2 = set_siginfo (bumped org) ∷ h1 in
      let h3 = get_siginfo ∷ h2 in
      Ends-or_cont env (IsRestored h) _ _ h1 λ _. Ends-or_cont env (IsRestored h) _ _ h2 λ _.
        Ends-or_cont env (IsRestored h) _ _ h3 λ _. Ends-or_cont env (IsRestored h) _ _ h3 λ same.
          Ends-if env (IsRestored h) _ (set_siginfo org ∷ h3) λ done.
            let same_true = not-false _ same in
            let seen = rw (signals.gets h2) at same_true in
            (signals.sets h3 org done ∙ signals.gets h, h2, rw (sym (signals.gets h)) seen)

  -- Where the two siginfo requests read and write the siginfo of the child's stop: if parent_func
  -- of 013.c returns 0, the siginfo has taken on the new signal, error and code, and the child is
  -- continued last of all with the siginfo that it had after rewrite_brk_inst.
  pub parent_013-restores :
      (v : Vars) (cpid : ℤ) (start : List Event)
      → (parent_013 env v cpid start).0 ≡ pos 0
      → (h : List Event) × IsRestored (rewritten env v start) h
        × ((parent_013 env v cpid start).1 ≡ cont ∷ h)
        × (is_zero (env h cont).ret ≡ true)
  unfolding parent_013
  parent_013-restores v cpid start =
      trace_child-IsDone env (IsRestored (rewritten env v start)) v cpid (body_013 env) start
        (λ _. body_013-Ends (rewritten env v start))
