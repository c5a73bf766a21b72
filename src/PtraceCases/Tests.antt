-- ===== src/PtraceCases/Tests.antt =====
-- The test cases on a child that behaves as they expect.
use mckernel_ostest_arm.Base.{◌≡◌, ◌≢◌, ◌⊎◌, refl, List, [], ◌∷◌, ◌++◌, true, false}
use mckernel_ostest_arm.Base.Int.{pos, is_zero, is_minus_one}
use mckernel_ostest_arm.Ptrace.Regset.{rewrite_brk_inst}
use mckernel_ostest_arm.PtraceCases.Events.{Siginfo, Event, fork, wait, cont, trap_brkpt}
use mckernel_ostest_arm.PtraceCases.Flow.{
  or_cont, continue_child, wait_stop, finish, trace_child, verdict, run_case,
}
use mckernel_ostest_arm.PtraceCases.Traps.{at_trap, body_006, parent_006, run_006}
use mckernel_ostest_arm.PtraceCases.Stepping.{step_loop, body_017, parent_017}
use mckernel_ostest_arm.PtraceCases.Life.{Life, running, Traced, start}
use mckernel_ostest_arm.PtraceCases.Life.Parents.{f006, parent_func}
use mckernel_ostest_arm.PtraceCases.Life.Rules.{parent_func-Traced}
use mckernel_ostest_arm.PtraceCases.Verdict.{rewritten}
use mckernel_ostest_arm.PtraceCases.Verdict.Texts.{IsTrapped, parent_006-restores}
use mckernel_ostest_arm.PtraceCases.Verdict.Steps.{Restored, parent_017-steps}
use mckernel_ostest_arm.PtraceCases.Verdict.Info.{Signals}
use mckernel_ostest_arm.PtraceCases.Verdict.Runs.{run_func, run_func-passes}
use mckernel_ostest_arm.PtraceCases.World.{
  vars, trap_at, info, peek, poke, write_back, nops, answers, reads,
}

parent_func-Traced_example :
    let (ret, h') = parent_func (answers true (trap_at trap_brkpt 8192)) vars (pos 7) f006 [] in
    (l' : Life) × Traced (answers true (trap_at trap_brkpt 8192)) (pos 7) h' l'
    × ((ret ≢ pos 0) ⊎ (l' ≡ running))
parent_func-Traced_example =
    parent_func-Traced (answers true (trap_at trap_brkpt 8192)) (pos 7) vars f006 [] running start

run_func-passes_example :
    let env = answers true (trap_at trap_brkpt 8192) in
    (start : List Event) × (after : List Event) × let pid = (env start fork).ret in
      let (ret, h1) = parent_func env vars pid f006 (fork ∷ start) in
      (ret ≡ pos 0)
      × ((run_func env vars f006 []).1 ≡ wait ∷ (after ++ h1))
      × Traced env pid (after ++ h1) running
      × (is_minus_one (env (after ++ h1) wait).ret ≡ false)
unfolding run_006 run_case verdict parent_006 trace_child wait_stop finish body_006 or_cont
    continue_child at_trap rewrite_brk_inst
run_func-passes_example = run_func-passes (answers true (trap_at trap_brkpt 8192)) vars f006 refl

parent_006-restores_example :
    let env = answers true (trap_at trap_brkpt 8192) in
    (h : List Event) × IsTrapped peek poke write_back env nops
      (reads true (trap_at trap_brkpt 8192))
      vars
      (pos 7)
      (rewritten env vars [])
      h
    × ((parent_006 env vars (pos 7) []).1 ≡ cont ∷ h)
    × (is_zero (env h cont).ret ≡ true)
unfolding parent_006 trace_child wait_stop finish body_006 or_cont continue_child at_trap
    rewrite_brk_inst
parent_006-restores_example =
    parent_006-restores peek poke write_back (answers true (trap_at trap_brkpt 8192)) nops
      (reads true (trap_at trap_brkpt 8192)) vars (pos 7) [] refl

parent_017-steps_example :
    let env = answers true (trap_at trap_brkpt 8192) in
    (h : List Event) × Restored peek poke write_back env nops
      (reads true (trap_at trap_brkpt 8192))
      vars
      (pos 7)
      (rewritten env vars [])
      h
    × ((parent_017 env vars (pos 7) []).1 ≡ cont ∷ h)
    × (is_zero (env h cont).ret ≡ true)
unfolding parent_017 trace_child wait_stop finish body_017 step_loop or_cont continue_child at_trap
    rewrite_brk_inst
parent_017-steps_example =
    parent_017-steps peek poke write_back (answers true (trap_at trap_brkpt 8192)) nops
      (reads true (trap_at trap_brkpt 8192)) vars (pos 7) [] refl

signals : (first : Siginfo) → Signals (answers true first) (info first)
signals first = record { gets = λ h. refl; keeps = λ h. refl; sets = λ h i done. refl }
