-- ===== src/Dispatch.antt =====
-- The `main` that cpu_pa_info/src/main.c and condition_monitor/src/main.c share word for word: it
-- checks two arguments and calls one entry of a table. The table comes from test_case.list, which
-- the build generates, so it is a parameter, as atoi is. Messages are left out.
pub mod Choice
mod Tests
use mckernel_ostest_arm.Base.{
  ℕ, List, [], ◌∷◌, Bool, true, false, ◌||◌, not, Option, none, some, ltb, leb, ◌==◌, length,
  get_elem?, if◌then◌else◌,
}
use mckernel_ostest_arm.Base.Int.{ℤ, pos, negsuc, is_neg, pos_part}
use mckernel_ostest_arm.Base.Trace.{Proc, pure, ◌>>=◌}

-- How `main` ends; `fault` is a read outside `test_cases`, which C leaves undefined.
pub data Outcome : Type 0 where
  exited : ℤ → Outcome
  fault : Outcome

-- `struct test_case`: NULL is `none`. The arguments are the test number and the OS number.
abbrev pub TestCase : Type 0 → Type 0
TestCase C = Option (ℤ → ℤ → Proc C ℤ)

module _ {C : Type 0} where
  -- `test_cases[tp_num].func(tp_num, os_num)`
  unfoldable pub run_entry : Option (TestCase C) → ℤ → ℤ → Proc C Outcome
  run_entry none tp_num os_num = pure fault
  run_entry (some none) tp_num os_num = pure (exited (negsuc 0))
  run_entry (some (some func)) tp_num os_num = do ret ← func tp_num os_num; pure (exited ret)

  -- From the check of `os_num` on. No element stands before `test_cases[0]`.
  unfoldable pub choose : List (TestCase C) → ℤ → ℤ → Proc C Outcome
  unfolding run_entry
  choose test_cases os_num tp_num =
      if is_neg os_num || ltb 63 (pos_part os_num)
      then pure (exited (negsuc 0))
      else if is_neg tp_num
      then run_entry none tp_num os_num
      else if leb (length test_cases) (pos_part tp_num)
      then pure (exited (negsuc 0))
      else run_entry (get_elem? test_cases (pos_part tp_num)) tp_num os_num

module _ {C A : Type 0} where
  -- The last clause is `argc != 3`.
  unfoldable pub main_args : (A → ℤ) → List (TestCase C) → List A → Proc C Outcome
  unfolding choose
  main_args atoi test_cases (prog ∷ os_num ∷ tp_num ∷ []) =
      choose test_cases (atoi os_num) (atoi tp_num)
  main_args atoi test_cases argv = pure (exited (negsuc 0))

  unfoldable pub dispatch : (A → ℤ) → ℕ → List (TestCase C) → List A → Proc C Outcome
  unfolding main_args
  dispatch atoi usage_count test_cases argv =
      if not (usage_count == length test_cases)
      then pure (exited (negsuc 0))
      else main_args atoi test_cases argv
