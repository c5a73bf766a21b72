-- ===== src/Rlimit/Tests.antt =====
-- The theorems on the test cases of test_mck/src/setrlimit and getrlimit, at a system with the same limits
-- for all resources.
use mckernel_ostest_arm.Base.{arith, ◌≡◌, ◌^◌, [], ◌∷◌, none, some, map}
use mckernel_ostest_arm.Base.Int.{pos}
use mckernel_ostest_arm.Rlimit.{setrlimit_failed, getrlimit_failed, errno_different, rlimit_as}
use mckernel_ostest_arm.Rlimit.Kernel.{Limits, limits, kernel, kernel-Agrees}
use mckernel_ostest_arm.Rlimit.Set.{run_set, case_002}
use mckernel_ostest_arm.Rlimit.Restored.{run_set-restores}
use mckernel_ostest_arm.Rlimit.Verdicts.{get_cases-verdicts, get_cases_contradict, Passes}
use mckernel_ostest_arm.Rlimit.Get.{
  run_get, cases, run_table, table_017, case_007, case_009, case_015, case_016, case_018,
}

abbrev same_limits : Limits
same_limits r = record { rlim_cur = 1024; rlim_max = 2 ^ 31 }

run_set-restores_example :
    let (m, h) = run_set (kernel same_limits) case_002 [] in
    (m ≡ some setrlimit_failed) × (limits same_limits h rlimit_as ≡ same_limits rlimit_as)
run_set-restores_example =
    run_set-restores (kernel same_limits) same_limits (kernel-Agrees same_limits) case_002
      (ground arith) (ground arith) rlimit_as

get_cases-verdicts_example :
    (map (λ c. (run_get (kernel same_limits) (pos 0) c []).0) cases
      ≡ some getrlimit_failed
        ∷ none
        ∷ some getrlimit_failed
        ∷ none
        ∷ some getrlimit_failed
        ∷ some getrlimit_failed
        ∷ none
        ∷ some getrlimit_failed
        ∷ some getrlimit_failed
        ∷ some getrlimit_failed
        ∷ none
        ∷ some getrlimit_failed
        ∷ some getrlimit_failed
        ∷ some getrlimit_failed
        ∷ some getrlimit_failed
        ∷ some errno_different
        ∷ none
        ∷ none
        ∷ [])
    × Passes (run_table (kernel same_limits) (pos 0) table_017)
get_cases-verdicts_example =
    get_cases-verdicts (kernel same_limits) same_limits (kernel-Agrees same_limits) 0

get_cases_contradict_example :
    ¬ (
      Passes (run_get (kernel same_limits) (pos 0) case_007)
      × Passes (run_get (kernel same_limits) (pos 0) case_016))
    × (¬ (
          Passes (run_get (kernel same_limits) (pos 0) case_015)
          × Passes (run_get (kernel same_limits) (pos 0) case_018))
        × ¬ (
            Passes (run_get (kernel same_limits) (pos 0) case_009)
            × Passes (run_table (kernel same_limits) (pos 0) table_017)))
get_cases_contradict_example = get_cases_contradict (kernel same_limits) (pos 0)
