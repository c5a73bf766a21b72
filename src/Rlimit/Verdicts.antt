-- ===== src/Rlimit/Verdicts.antt =====
-- Which of the test cases of test_mck/src/getrlimit pass.
use mckernel_ostest_arm.Base.{
  ℕ, arith, ◌≡◌, List, [], ◌∷◌, map, Option, none, some, true, false, refl, ◌<◌, ◌==◌,
  if◌then◌else◌, Each,
}
use mckernel_ostest_arm.Base.Int.{ℤ, pos, eq_ℤ}
use mckernel_ostest_arm.Base.Trace.{Env, Proc}
use mckernel_ostest_arm.Rlimit.{
  Event, Answer, Message, getrlimit, getrlimit_failed, errno_different, rlimit_as, rlimit_nlimits,
  einval, enosys,
}
use mckernel_ostest_arm.Rlimit.Kernel.{Limits, limits, index, Agrees}
use mckernel_ostest_arm.Rlimit.Get.{
  GetrlimitTc, Case, run_get, get_each, run_table, cases, table_017, case_007, case_009, case_015,
  case_016, case_000, case_001, case_002, case_003, case_004, case_005, case_006, case_008,
  case_010, case_011, case_012, case_013, case_014, case_018, succeeds, fails, check,
}

-- A run from the start gives NULL.
abbrev pub Passes : Proc Event (Option Message) → Type 0
Passes run = (run []).0 ≡ none

-- `failed` stays set.
get_each-true :
    (env : Env Event Answer) (tc : List GetrlimitTc) (h : List Event)
    → (get_each env true tc h).0 ≡ true
unfolding get_each
get_each-true env [] h = refl
get_each-true env (t ∷ rest) h =
    let later = get_each-true env rest (getrlimit t.resource ∷ h) in ground arith

-- 017.c fails when the first call of its table does.
run_table-fails :
    (env : Env Event Answer) (tc_num : ℤ) (t : GetrlimitTc) (rest : List GetrlimitTc)
    → eq_ℤ (env [] (getrlimit t.resource)).ret t.expect_result ≡ false
    → ¬ Passes (run_table env tc_num (t ∷ rest))
unfolding run_table get_each
run_table-fails env tc_num t rest e =
    let later = get_each-true env rest (getrlimit t.resource ∷ []) in ground arith

module _ (env : Env Event Answer) (tc_num : ℤ) where
  case_009-or-017 :
      ¬ (Passes (run_get env tc_num case_009) × Passes (run_table env tc_num table_017))
  unfolding run_get
  case_009-or-017 (p, q) = run_table-fails env tc_num (succeeds rlimit_as) _ (ground arith) q

  -- From the same state 007.c and 016.c do not both pass, 015.c and 018.c do not, and 009.c and 017.c do
  -- not, whatever the system answers.
  pub get_cases_contradict :
      ¬ (Passes (run_get env tc_num case_007) × Passes (run_get env tc_num case_016))
      × (¬ (Passes (run_get env tc_num case_015) × Passes (run_get env tc_num case_018))
          × ¬ (Passes (run_get env tc_num case_009) × Passes (run_table env tc_num table_017)))
  unfolding run_get
  get_cases_contradict = (ground arith, (ground arith, case_009-or-017))

module _ (env : Env Event Answer) (start : Limits)
    (agrees : (h : List Event) (e : Event) → Agrees (limits start h) e (env h e)) where
  known_verdict :
      (c : Case)
      → index c.tc.resource < 15
      → c.checks_errno ≡ false
      → check c (env [] (getrlimit c.tc.resource))
        ≡ (if eq_ℤ (pos 0) c.tc.expect_result then none else some getrlimit_failed)
  known_verdict c known quiet = let a = agrees [] (getrlimit c.tc.resource) in ground arith

  nlimits_verdict :
      (e : ℕ)
      → check
          (record { tc = fails rlimit_nlimits e; checks_errno = true })
          (env [] (getrlimit rlimit_nlimits))
        ≡ (if einval == e then none else some errno_different)
  nlimits_verdict e = let a = agrees [] (getrlimit rlimit_nlimits) in ground arith

  -- The loop of 017.c meets no failure at resources that there are.
  get_each-known :
      (tc : List GetrlimitTc) (h : List Event)
      → Each (λ t. (index t.resource < 15) × (t.expect_result ≡ pos 0)) tc
      → (get_each env false tc h).0 ≡ false
  unfolding get_each
  get_each-known [] h each = refl
  get_each-known (t ∷ rest) h each =
      let later = get_each-known rest (getrlimit t.resource ∷ h) each.1 in
      let now = agrees h (getrlimit t.resource) in ground arith

  run_table-Passes :
      (n : ℕ) (tc : List GetrlimitTc)
      → Each (λ t. (index t.resource < 15) × (t.expect_result ≡ pos 0)) tc
      → Passes (run_table env (pos n) tc)
  unfolding run_table
  run_table-Passes n tc each = let loop = get_each-known tc [] each in ground arith

  -- With answers that follow the manual page and a number that is not negative, of the test cases other
  -- than 017.c just 001.c, 003.c, 006.c, 010.c, 016.c and 018.c pass; 015.c fails at errno, the others
  -- at the result. 017.c passes.
  pub get_cases-verdicts :
      (n : ℕ)
      → (map (λ c. (run_get env (pos n) c []).0) cases
          ≡ some getrlimit_failed
            ∷ none
            ∷ some getrlimit_failed
            ∷ none
            ∷ some getrlimit_failed
            ∷ some getrlimit_failed
            ∷ none
            ∷ some getrlimit_failed
            ∷ some getrlimit_failed
            ∷ some getrlimit_failed
            ∷ none
            ∷ some getrlimit_failed
            ∷ some getrlimit_failed
            ∷ some getrlimit_failed
            ∷ some getrlimit_failed
            ∷ some errno_different
            ∷ none
            ∷ none
            ∷ [])
        × Passes (run_table env (pos n) table_017)
  unfolding run_get
  get_cases-verdicts n = (
    rw (
      known_verdict case_000 (ground arith) refl,
      known_verdict case_001 (ground arith) refl,
      known_verdict case_002 (ground arith) refl,
      known_verdict case_003 (ground arith) refl,
      known_verdict case_004 (ground arith) refl,
      known_verdict case_005 (ground arith) refl,
      known_verdict case_006 (ground arith) refl,
      known_verdict case_007 (ground arith) refl,
      known_verdict case_008 (ground arith) refl,
      known_verdict case_009 (ground arith) refl,
      known_verdict case_010 (ground arith) refl,
      known_verdict case_011 (ground arith) refl,
      known_verdict case_012 (ground arith) refl,
      known_verdict case_013 (ground arith) refl,
      known_verdict case_014 (ground arith) refl,
      known_verdict case_016 (ground arith) refl,
      nlimits_verdict enosys,
      nlimits_verdict einval,
    ),
    run_table-Passes n table_017 (ground arith),
  )
