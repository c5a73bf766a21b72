-- ===== src/Harness/Tests.antt =====
-- A table with one test case, a page map entry, and a disk on which mkstemp works but lseek fails.
use mckernel_ostest_arm.Base.{ℕ, ◌^◌, List, [], ◌∷◌, ◌≡◌, refl, inr, none, some, ltb, if◌then◌else◌}
use mckernel_ostest_arm.Base.Int.{ℤ, pos, negsuc}
use mckernel_ostest_arm.Base.Trace.{Env}
use mckernel_ostest_arm.Harness.Runner.{TestCase, Opt, opt_s, opt_n, exit_success, main}
use mckernel_ostest_arm.Harness.Runner.Selection.{main_runs}
use mckernel_ostest_arm.Harness.Number.{test_mck_strtoul}
use mckernel_ostest_arm.Harness.Number.Laws.{strtoll_of, test_mck_strtoul_range}
use mckernel_ostest_arm.Harness.Pagemap as Pagemap
use mckernel_ostest_arm.Harness.Pagemap.Decode.{encode}
use mckernel_ostest_arm.Harness.TempFile as TempFile
use Prim.Native.String.{String}

abbrev getpid : TestCase ℕ
getpid = record {
  test_suite = "getpid";
  num = pos 1;
  setup = λ num argv h. (pos 7, 1 ∷ h);
  run = λ num args h. (none, 2 ∷ h);
  teardown = λ num args h. (tt, 3 ∷ h);
}

abbrev fork : TestCase ℕ
fork = record getpid { test_suite = "fork"; num = pos 0 }

abbrev table : List (TestCase ℕ)
table = fork ∷ getpid ∷ []

-- Any text denotes 1.
abbrev atoi : String → ℤ
atoi s = pos 1

abbrev selects : List Opt
selects = opt_s "fork" ∷ opt_n "1" ∷ opt_s "getpid" ∷ []

main_runs_example : main atoi selects [] table [] ≡ (exit_success, 3 ∷ 2 ∷ 1 ∷ [])
main_runs_example =
    main_runs atoi selects [] table [] "getpid" (fork ∷ []) getpid [] refl refl (λ e. cc e) refl
      (inr (λ e. cc e), tt) refl refl

test_mck_strtoul_range_example :
    test_mck_strtoul (some (strtoll_of (2 ^ 63))) 5 ≡ (if ltb (2 ^ 63) (2 ^ 63) then 2 ^ 63 else 5)
test_mck_strtoul_range_example = test_mck_strtoul_range (2 ^ 63) 5

-- Every call returns 3, and the entry is that of frame 5, which is present, in pages of 2^12.
abbrev proc : Env Pagemap.Call Pagemap.Reply
proc h c = record { ret = pos 3; pagemap = encode 5 12 1 0 }

-- lseek fails, and the others succeed.
abbrev full : Env TempFile.Call TempFile.Reply
full h (TempFile.lseek fd off) = record { ret = negsuc 0; ptr = pos 0 }
full h c = record { ret = pos 3; ptr = pos 4096 }

-- asprintf fails and leaves a pointer behind: the pointer is freed.
abbrev exhausted : Env TempFile.Call TempFile.Reply
exhausted h c = record { ret = negsuc 0; ptr = pos 8 }

undefined_pointer_freed :
    (TempFile.create_temp_file exhausted 100 []).1 ≡ TempFile.free (pos 8) ∷ TempFile.asprintf ∷ []
unfolding TempFile.create_temp_file TempFile.fail TempFile.free_path
undefined_pointer_freed = refl
