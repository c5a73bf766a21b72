-- ===== src/Harness/Runner/Selection.antt =====
-- Which test case the program runs, and its exit code.
use mckernel_ostest_arm.Base.{
  List, [], ◌∷◌, ◌++◌, Bool, true, false, Option, none, some, ◌≡◌, ◌⊎◌, inl, inr, refl, ap,
  Bool-cases, ◌≢◌, Each, eq_self, ==_iff,
}
use mckernel_ostest_arm.Base.Int.{ℤ, pos, negsuc, eq_ℤ}
use mckernel_ostest_arm.Harness.Runner.{
  TestCase, Opt, opt_s, opt_n, opt_h, opt_other, Args, int_min, exit_success, exit_failure, parsed,
  parse, matches, find_test_case, run_test_case, report, main,
}
use Prim.Native.String.{String}
use text.Mathlib.Text.{◌==◌ as str_eq}
use text.Mathlib.TextEquality.{eq_iff}

-- A test case with another name or number.
abbrev pub IsOther : {C : Type 0} → (test_suite : String) → (num : ℤ) → TestCase C → Type 0
IsOther test_suite num tc = (tc.test_suite ≢ test_suite) ⊎ (tc.num ≢ num)

eq_ℤ-refl : (n : ℤ) → eq_ℤ n n ≡ true
eq_ℤ-refl (pos n) = eq_self n
eq_ℤ-refl (negsuc n) = eq_self n

eq_ℤ→≡ : (n m : ℤ) → eq_ℤ n m ≡ true → n ≡ m
eq_ℤ→≡ (pos n) (pos m) e = ap pos ((==_iff n m).0 e)
eq_ℤ→≡ (negsuc n) (negsuc m) e = ap negsuc ((==_iff n m).0 e)
eq_ℤ→≡ (pos n) (negsuc m) e = cc e
eq_ℤ→≡ (negsuc n) (pos m) e = cc e

module _ {C : Type 0} (test_suite : String) (num : ℤ) where
  matches_own :
      (tc : TestCase C)
      → tc.test_suite ≡ test_suite
      → tc.num ≡ num
      → matches test_suite num tc ≡ true
  unfolding matches
  matches_own tc name number =
      rw (name, number, eq_ℤ-refl num, (eq_iff test_suite test_suite).1 refl) refl

  matches_other : (tc : TestCase C) → IsOther test_suite num tc → matches test_suite num tc ≡ false
  unfolding matches
  matches_other tc other = elim (Bool-cases (eq_ℤ tc.num num)) [
    | inr differs ↦ rw differs refl
    | inl same ↦ elim (Bool-cases (str_eq tc.test_suite test_suite)) [
      | inr differs ↦ rw (same, differs) refl
      | inl alike ↦ elim other [
        | inl name ↦ absurd (name ((eq_iff tc.test_suite test_suite).0 alike))
        | inr number ↦ absurd (number (eq_ℤ→≡ tc.num num same))
      ]
    ]
  ]

  find_test_case-first :
      (before : List (TestCase C)) (tc : TestCase C) (after : List (TestCase C))
      → Each (IsOther test_suite num) before
      → tc.test_suite ≡ test_suite
      → tc.num ≡ num
      → find_test_case test_suite num (before ++ tc ∷ after) ≡ some tc
  unfolding find_test_case
  find_test_case-first [] tc after others name number = rw (matches_own tc name number) refl
  find_test_case-first (other ∷ before) tc after others name number =
      rw (matches_other other others.0) (find_test_case-first before tc after others.1 name number)

-- The exit code that a result stands for.
abbrev pub exit_code : Option String → ℤ
exit_code none = exit_success
exit_code (some msg) = exit_failure

-- The options hold a `-h` or an unknown one.
abbrev pub stops : List Opt → Bool
stops [] = false
stops (opt_s optarg ∷ opts) = stops opts
stops (opt_n optarg ∷ opts) = stops opts
stops (opt_h ∷ opts) = true
stops (opt_other ∷ opts) = true

-- The argument of the last `-s`, and of the last `-n`.
abbrev pub last_s : List Opt → Option String → Option String
last_s [] s = s
last_s (opt_s optarg ∷ opts) s = last_s opts (some optarg)
last_s (o ∷ opts) s = last_s opts s

abbrev pub last_n : (String → ℤ) → List Opt → ℤ → ℤ
last_n atoi [] n = n
last_n atoi (opt_n optarg ∷ opts) n = last_n atoi opts (atoi optarg)
last_n atoi (o ∷ opts) n = last_n atoi opts n

parse_lem :
    (atoi : String → ℤ) (opts : List Opt) (a : Args)
    → stops opts ≡ false
    → parse atoi opts a ≡ parsed (record { ts = last_s opts a.ts; num = last_n atoi opts a.num })
unfolding parse
parse_lem atoi [] a e = refl
parse_lem atoi (opt_s optarg ∷ opts) a e = parse_lem atoi opts (record a { ts = some optarg }) e
parse_lem atoi (opt_n optarg ∷ opts) a e = parse_lem atoi opts (record a { num = atoi optarg }) e
parse_lem atoi (opt_h ∷ opts) a e = cc
parse_lem atoi (opt_other ∷ opts) a e = cc

report_lem : {C : Type 0} (msg : Option String) (h : List C) → report msg h ≡ (exit_code msg, h)
unfolding report
report_lem none h = refl
report_lem (some msg) h = refl

module _ {C : Type 0} (atoi : String → ℤ) (opts : List Opt) (argv : List String)
    (test_cases : List (TestCase C)) (h : List C) where
  -- With options -s and -n alone, of which the last of each counts, and a number other than INT_MIN: if
  -- the table has a test case of this name and number, and those before it have another name or another
  -- number, `main` makes the calls of its setup, run and teardown functions in this order, and exits
  -- with 0 exactly when run returned NULL.
  pub main_runs :
      (ts : String) (before : List (TestCase C)) (tc : TestCase C) (after : List (TestCase C))
      → stops opts ≡ false
      → last_s opts none ≡ some ts
      → last_n atoi opts int_min ≢ int_min
      → test_cases ≡ before ++ tc ∷ after
      → Each (IsOther ts (last_n atoi opts int_min)) before
      → tc.test_suite ≡ ts
      → tc.num ≡ last_n atoi opts int_min
      → let (args, h1) = tc.setup tc.num argv h in
        let (msg, h2) = tc.run tc.num args h1 in
        let h3 = (tc.teardown tc.num args h2).1 in
        main atoi opts argv test_cases h ≡ (exit_code msg, h3)
  unfolding main run_test_case
  main_runs ts before tc after plain s n split others name number =
      let start : Args = record { ts = none; num = int_min } in
      let found =
        find_test_case-first ts (last_n atoi opts int_min) before tc after others name number in
      let given : eq_ℤ (last_n atoi opts int_min) int_min ≡ false =
        elim (Bool-cases (eq_ℤ (last_n atoi opts int_min) int_min)) [
          | inl same ↦ absurd (n (eq_ℤ→≡ (last_n atoi opts int_min) int_min same))
          | inr differs ↦ differs
        ] in
      rw (split, parse_lem atoi opts start plain, s, given, found)
        (report_lem (tc.run tc.num (tc.setup tc.num argv h).0 (tc.setup tc.num argv h).1).0 _)
