-- ===== src/Harness/Runner.antt =====
-- The table of test cases and `main` of test_mck/src/test_mck.c. The table comes from
-- test_case.list, which the build generates, so it is a parameter; getopt's answers before -1 are a
-- list, as are the arguments that it leaves. Messages are left out.
pub mod Selection
use mckernel_ostest_arm.Base.{
  ℕ, List, [], ◌∷◌, Bool, true, false, ◌&&◌, Option, none, some, ◌==◌, ◌^◌, ◌-◌, if◌then◌else◌,
}
use mckernel_ostest_arm.Base.Int.{ℤ, pos, negsuc, eq_ℤ}
use mckernel_ostest_arm.Base.Trace.{Proc, pure, ◌>>=◌, ◌>>◌}
use Prim.Native.String.{String}
use text.Mathlib.Text.{◌==◌ as str_eq}

-- `struct test_case`; `C` is what the functions may call. A pointer is a number, and a message is
-- `none` for NULL.
pub record TestCase (C : Type 0) : Type 0 where
  pub test_suite : String
  pub num : ℤ
  pub setup : ℤ → List String → Proc C ℤ
  pub run : ℤ → ℤ → Proc C (Option String)
  pub teardown : ℤ → ℤ → Proc C (Unit {0})

-- What getopt returns: `-s` and `-n` with their argument, `-h`, and anything else.
pub data Opt : Type 0 where
  opt_s : String → Opt
  opt_n : String → Opt
  opt_h opt_other : Opt

-- The two local variables that the options set: NULL is `none`.
pub record Args : Type 0 where
  pub ts : Option String
  pub num : ℤ

abbrev pub int_min : ℤ
int_min = negsuc (2 ^ 31 - 1)

abbrev pub exit_success : ℤ
exit_success = pos 0

abbrev pub exit_failure : ℤ
exit_failure = pos 1

-- The option loop: an exit code, or the variables after it.
pub data Parsed : Type 0 where
  exits : ℤ → Parsed
  parsed : Args → Parsed

unfoldable pub parse : (String → ℤ) → List Opt → Args → Parsed
parse atoi [] a = parsed a
parse atoi (opt_s optarg ∷ opts) a = parse atoi opts (record a { ts = some optarg })
parse atoi (opt_n optarg ∷ opts) a = parse atoi opts (record a { num = atoi optarg })
parse atoi (opt_h ∷ opts) a = exits exit_success
parse atoi (opt_other ∷ opts) a = exits exit_failure

module _ {C : Type 0} where
  unfoldable pub matches : String → ℤ → TestCase C → Bool
  matches test_suite num tc = eq_ℤ tc.num num && str_eq tc.test_suite test_suite

  unfoldable pub find_test_case : String → ℤ → List (TestCase C) → Option (TestCase C)
  unfolding matches
  find_test_case test_suite num [] = none
  find_test_case test_suite num (tc ∷ test_cases) =
      if matches test_suite num tc then some tc else find_test_case test_suite num test_cases

  unfoldable pub run_test_case : TestCase C → List String → Proc C (Option String)
  run_test_case tc argv = do
    args ← tc.setup tc.num argv
    msg ← tc.run tc.num args
    tc.teardown tc.num args
    pure msg

  -- The result's exit code.
  unfoldable pub report : Option String → Proc C ℤ
  report none = pure exit_success
  report (some msg) = pure exit_failure

  unfoldable pub run_found : Option (TestCase C) → List String → Proc C ℤ
  unfolding run_test_case report
  run_found none argv = pure exit_failure
  run_found (some tc) argv = do result ← run_test_case tc argv; report result

  -- From the validation of the options on.
  unfoldable pub run_selected : Option String → ℤ → List String → List (TestCase C) → Proc C ℤ
  unfolding find_test_case run_found
  run_selected none num argv test_cases = pure exit_failure
  run_selected (some ts) num argv test_cases =
      if eq_ℤ num int_min
      then pure exit_failure
      else run_found (find_test_case ts num test_cases) argv

  unfoldable pub run_parsed : Parsed → List String → List (TestCase C) → Proc C ℤ
  unfolding run_selected
  run_parsed (exits code) argv test_cases = pure code
  run_parsed (parsed a) argv test_cases = run_selected a.ts a.num argv test_cases

  unfoldable pub main : (String → ℤ) → List Opt → List String → List (TestCase C) → Proc C ℤ
  unfolding parse run_parsed
  main atoi opts argv test_cases =
      run_parsed (parse atoi opts (record { ts = none; num = int_min })) argv test_cases
