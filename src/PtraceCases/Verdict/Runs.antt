-- ===== src/PtraceCases/Verdict/Runs.antt =====
-- RUN_FUNC of the files whose child stops: a run that passes has let its child go.
use mckernel_ostest_arm.Base.{
  ◌≡◌, refl, List, [], ◌∷◌, ◌++◌, false, none, some, Bool-cases, inl, inr, arith, ◌&&◌, ◌||◌,
}
use mckernel_ostest_arm.Base.Int.{ℤ, pos, is_zero, is_minus_one}
use mckernel_ostest_arm.Base.Trace.{Env, Proc}
use mckernel_ostest_arm.PtraceCases.Events.{
  Event, Answer, fork, wait, mmap_sem, munmap_sem, sem_init, pwait, cwait,
}
use mckernel_ostest_arm.PtraceCases.Flow.{Vars, Ended, returned, verdict, run_case}
use mckernel_ostest_arm.PtraceCases.Attach.{
  run_synced, run_009, run_019, run_020, child_009, child_019, child_020, parent_009, parent_019,
  parent_020,
}
use mckernel_ostest_arm.PtraceCases.Requests.{
  run_001, parent_001, child_001, run_008, parent_008, child_008, run_010, parent_010, child_010,
  run_014, parent_014, child_014, run_016, parent_016, child_016, run_018, parent_018, verdict_018,
}
use mckernel_ostest_arm.PtraceCases.Memory.{
  run_002, parent_002, child_002, run_003, parent_003, child_003, run_004, parent_004, child_004,
  run_005, parent_005, child_005, run_007, parent_007, child_007,
}
use mckernel_ostest_arm.PtraceCases.Traps.{
  run_006, parent_006, child_006, run_011, parent_011, child_011, run_012, parent_012, child_012,
}
use mckernel_ostest_arm.PtraceCases.Stepping.{run_017, parent_017, child_017}
use mckernel_ostest_arm.PtraceCases.Messages.{
  run_013, parent_013, child_013, run_015, parent_015, child_015,
}
use mckernel_ostest_arm.PtraceCases.Life.Parents.{
  File, f001, f002, f003, f004, f005, f006, f007, f008, f009, f010, f011, f012, f013, f014, f015,
  f016, f017, f018, f019, f020, parent_func, parent_func-IsReleased,
}
use mckernel_ostest_arm.PtraceCases.Life.{running, life, Traced}
use mckernel_ostest_arm.PtraceCases.Life.Blocks.{IsKnown, IsReleased}
use mckernel_ostest_arm.PtraceCases.Life.Rules.{known-Traced}

module _ (env : Env Event Answer) where
  -- A run that has returned NULL: parent_func has returned 0 for the child of the fork after `start`,
  -- the last call is a wait that did not fail, and before it the child was let go, with every request
  -- made while it was stopped. `after` is what RUN_FUNC does between parent_func and that wait.
  abbrev pub IsPassed : (parent : ℤ → Proc Event ℤ) → Ended × List Event → Type 0
  IsPassed parent (ended, h') =
      ended ≡ returned none
      → (start : List Event) × (after : List Event) × let pid = (env start fork).ret in
          let (ret, h1) = parent pid (fork ∷ start) in
          (ret ≡ pos 0)
          × (h' ≡ wait ∷ (after ++ h1))
          × Traced env pid (after ++ h1) running
          × (is_minus_one (env (after ++ h1) wait).ret ≡ false)

  -- At the end of RUN_FUNC, a verdict of NULL wants `func_ret` to be 0.
  verdict-passes :
      (func_ret : ℤ) (h : List Event)
      → let (ended, h') = verdict env func_ret h in
        (h' ≡ wait ∷ h)
        × (ended ≡ returned none → (func_ret ≡ pos 0) × (is_minus_one (env h wait).ret ≡ false))
  unfolding verdict
  verdict-passes func_ret h = (ground arith, ground arith)

  verdict_018-passes :
      (func_ret : ℤ) (h : List Event)
      → let (ended, h') = verdict_018 env func_ret h in
        (h' ≡ wait ∷ h)
        × (ended ≡ returned none → (func_ret ≡ pos 0) × (is_minus_one (env h wait).ret ≡ false))
  unfolding verdict_018
  verdict_018-passes func_ret h = (ground arith, ground arith)

  verdict-IsPassed :
      (parent : ℤ → Proc Event ℤ) (start after : List Event)
      → let pid = (env start fork).ret in
        let (ret, h1) = parent pid (fork ∷ start) in
        (ret ≡ pos 0 → life env pid (after ++ h1) ≡ some running)
        → IsPassed parent (verdict env ret (after ++ h1))
  verdict-IsPassed parent start after free z =
      let pid = (env start fork).ret in
      let (ret, h1) = parent pid (fork ∷ start) in
      let (last, passes) = verdict-passes ret (after ++ h1) in
      let (zero, waited) = passes z in
      (start, after, (zero, last, known-Traced env pid (after ++ h1) running (free zero), waited))

  run_case-IsPassed :
      (parent : ℤ → Proc Event ℤ) (child : Proc Event ℤ)
      → ((cpid : ℤ) (h : List Event) → IsKnown env cpid h → IsReleased env cpid (parent cpid h))
      → IsPassed parent (run_case env parent child [])
  unfolding run_case
  run_case-IsPassed parent child safe =
      let pid = (env [] fork).ret in
      let (ret, h) = parent pid (fork ∷ []) in
      let (known, free) = safe pid (fork ∷ []) (running, refl) in
      elim (Bool-cases (is_minus_one pid)) [
        | inl failed ↦ rw failed (λ z. absurd (ground arith))
        | inr forked ↦ elim (Bool-cases (is_zero pid)) [
          | inl in_child ↦ rw (forked, in_child) (λ z. absurd (ground arith))
          | inr in_parent ↦ rw (forked, in_parent) (verdict-IsPassed parent [] [] free)
        ]
      ]

  run_synced-IsPassed :
      (parent : ℤ → Proc Event ℤ) (child : Proc Event ℤ)
      → ((cpid : ℤ) (h : List Event) → IsKnown env cpid h → IsReleased env cpid (parent cpid h))
      → IsPassed parent (run_synced env parent child [])
  unfolding run_synced
  run_synced-IsPassed parent child safe =
      let h2 = mmap_sem cwait ∷ mmap_sem pwait ∷ [] in
      let unmappable =
        is_minus_one (env [] (mmap_sem pwait)).ret
        || is_minus_one (env (mmap_sem pwait ∷ []) (mmap_sem cwait)).ret in
      let ready =
        is_zero (env h2 (sem_init pwait)).ret
        && is_zero (env (sem_init pwait ∷ h2) (sem_init cwait)).ret in
      let h4 = sem_init cwait ∷ sem_init pwait ∷ h2 in
      let pid = (env h4 fork).ret in
      let (ret, h) = parent pid (fork ∷ h4) in
      let (known, free) = safe pid (fork ∷ h4) (running, refl) in
      let h6 = munmap_sem pwait ∷ munmap_sem cwait ∷ h in
      let unmapped =
        is_zero (env h (munmap_sem cwait)).ret
        && is_zero (env (munmap_sem cwait ∷ h) (munmap_sem pwait)).ret in
      elim (Bool-cases unmappable) [
        | inl failed ↦ rw failed (λ z. absurd (ground arith))
        | inr mapped ↦ elim (Bool-cases ready) [
          | inr unready ↦ rw (mapped, unready) (λ z. absurd (ground arith))
          | inl inits ↦ elim (Bool-cases (is_minus_one pid)) [
            | inl failed ↦ rw (mapped, inits, failed) (λ z. absurd (ground arith))
            | inr forked ↦ elim (Bool-cases (is_zero pid)) [
              | inl in_child ↦ rw (mapped, inits, forked, in_child) (λ z. absurd (ground arith))
              | inr in_parent ↦ elim (Bool-cases unmapped) [
                | inr left ↦
                    rw (mapped, inits, forked, in_parent, left) (λ z. absurd (ground arith))
                | inl gone ↦
                    rw (mapped, inits, forked, in_parent, gone)
                      (verdict-IsPassed parent h4 (munmap_sem pwait ∷ munmap_sem cwait ∷ [])
                        λ zero. let at = free zero in rw at refl)
              ]
            ]
          ]
        ]
      ]

  run_018-IsPassed : (v : Vars) → IsPassed (parent_018 env v) (run_018 env v [])
  unfolding run_018
  run_018-IsPassed v =
      let pid = (env [] fork).ret in
      let (ret, h) = parent_018 env v pid (fork ∷ []) in
      let (known, free) = parent_func-IsReleased env v pid f018 (fork ∷ []) (running, refl) in
      let (last, passes) = verdict_018-passes ret h in
      elim (Bool-cases (is_minus_one pid)) [
        | inl failed ↦ rw failed (λ z. absurd (ground arith))
        | inr forked ↦ elim (Bool-cases (is_zero pid)) [
          | inl in_child ↦ rw (forked, in_child) (λ z. absurd (ground arith))
          | inr in_parent ↦
              rw (forked, in_parent)
                (λ z.
                  let (zero, waited) = passes z in
                  ([], [], (zero, last, known-Traced env pid h running (free zero), waited)))
        ]
      ]

  module _ (v : Vars) where
    -- RUN_FUNC of each file.
    abbrev pub run_func : File → Proc Event Ended
    run_func f001 = run_001 env v
    run_func f002 = run_002 env v
    run_func f003 = run_003 env v
    run_func f004 = run_004 env v
    run_func f005 = run_005 env v
    run_func f006 = run_006 env v
    run_func f007 = run_007 env v
    run_func f008 = run_008 env v
    run_func f009 = run_009 env
    run_func f010 = run_010 env v
    run_func f011 = run_011 env v
    run_func f012 = run_012 env v
    run_func f013 = run_013 env v
    run_func f014 = run_014 env v
    run_func f015 = run_015 env v
    run_func f016 = run_016 env v
    run_func f017 = run_017 env v
    run_func f018 = run_018 env v
    run_func f019 = run_019 env
    run_func f020 = run_020 env

    abbrev safe :
        (f : File) (cpid : ℤ) (h : List Event)
        → IsKnown env cpid h
        → IsReleased env cpid (parent_func env v cpid f h)
    safe f cpid h known = parent_func-IsReleased env v cpid f h known

    -- If RUN_FUNC of 001.c to 020.c, started with no call before it, returns NULL, then parent_func
    -- of the same file, called after fork with its result, has returned 0, and the last call of all
    -- is a wait that has not failed. Before that wait every request of ptrace was made while the
    -- child was stopped, and the child runs on.
    pub run_func-passes :
        (f : File)
        → (run_func f []).0 ≡ returned none
        → (start : List Event) × (after : List Event) × let pid = (env start fork).ret in
            let (ret, h1) = parent_func env v pid f (fork ∷ start) in
            (ret ≡ pos 0)
            × ((run_func f []).1 ≡ wait ∷ (after ++ h1))
            × Traced env pid (after ++ h1) running
            × (is_minus_one (env (after ++ h1) wait).ret ≡ false)
    unfolding run_001 run_002 run_003 run_004 run_005 run_006 run_007 run_008 run_009 run_010
        run_011 run_012 run_013 run_014 run_015 run_016 run_017 run_019 run_020
    run_func-passes f001 = run_case-IsPassed (parent_001 env v) (child_001 env) (safe f001)
    run_func-passes f002 = run_case-IsPassed (parent_002 env v) (child_002 env v) (safe f002)
    run_func-passes f003 = run_case-IsPassed (parent_003 env v) (child_003 env v) (safe f003)
    run_func-passes f004 = run_case-IsPassed (parent_004 env v) (child_004 env) (safe f004)
    run_func-passes f005 = run_case-IsPassed (parent_005 env v) (child_005 env v) (safe f005)
    run_func-passes f006 = run_case-IsPassed (parent_006 env v) (child_006 env v) (safe f006)
    run_func-passes f007 = run_case-IsPassed (parent_007 env v) (child_007 env) (safe f007)
    run_func-passes f008 = run_case-IsPassed (parent_008 env v) (child_008 env) (safe f008)
    run_func-passes f009 = run_synced-IsPassed (parent_009 env) (child_009 env) (safe f009)
    run_func-passes f010 = run_case-IsPassed (parent_010 env v) (child_010 env v) (safe f010)
    run_func-passes f011 = run_case-IsPassed (parent_011 env v) (child_011 env v) (safe f011)
    run_func-passes f012 = run_case-IsPassed (parent_012 env v) (child_012 env v) (safe f012)
    run_func-passes f013 = run_case-IsPassed (parent_013 env v) (child_013 env) (safe f013)
    run_func-passes f014 = run_case-IsPassed (parent_014 env v) (child_014 env) (safe f014)
    run_func-passes f015 = run_case-IsPassed (parent_015 env v) (child_015 env v) (safe f015)
    run_func-passes f016 = run_case-IsPassed (parent_016 env v) (child_016 env) (safe f016)
    run_func-passes f017 = run_case-IsPassed (parent_017 env v) (child_017 env v) (safe f017)
    run_func-passes f018 = run_018-IsPassed v
    run_func-passes f019 = run_synced-IsPassed (parent_019 env) (child_019 env) (safe f019)
    run_func-passes f020 = run_synced-IsPassed (parent_020 env) (child_020 env) (safe f020)
