-- ===== src/Mempolicy/Balance.antt =====
-- The masks of all test cases of test_mck/src/mbind, set_mempolicy and get_mempolicy that are sequences of
-- statements.
use mckernel_ostest_arm.Base.{ℕ, arith, ◌≡◌, List, [], ◌++◌, some, false, get_elem?, Each, Each-at}
use mckernel_ostest_arm.Base.Trace.{Env, total_gain, total_loss}
use mckernel_ostest_arm.Mempolicy.{Event, Answer, Case}
use mckernel_ostest_arm.Mempolicy.Run.{run_test}
use mckernel_ostest_arm.Mempolicy.Ownership.{made, freed, Owns, run_test_balanced}
use mckernel_ostest_arm.Mempolicy.Bind
use mckernel_ostest_arm.Mempolicy.Assign
use mckernel_ostest_arm.Mempolicy.Fetch

abbrev pub all_cases : (page_size max_node tmp_buf : ℕ) → List Case
all_cases page_size max_node tmp_buf =
    Bind.cases page_size max_node tmp_buf
    ++ (Assign.cases page_size max_node ++ Fetch.cases page_size max_node tmp_buf)

all_cases-Owns :
    (page_size max_node tmp_buf : ℕ)
    → Each (λ c. Owns c false false c.steps) (all_cases page_size max_node tmp_buf)
all_cases-Owns p m b = ground arith

-- Whatever is asked of them and the system answers, a test case frees as many masks as malloc gave it.
pub all_cases_balanced :
    (env : Env Event Answer) (page_size max_node tmp_buf n : ℕ) (c : Case)
    → get_elem? (all_cases page_size max_node tmp_buf) n ≡ some c
    → let (stop, h) = run_test env max_node c [] in total_gain made env h ≡ total_loss freed h
all_cases_balanced env p m b n c e =
    run_test_balanced env m c
      (Each-at (λ c. Owns c false false c.steps) n c (all_cases p m b) (all_cases-Owns p m b) e)
