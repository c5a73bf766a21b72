-- ===== src/Affinity/Released.antt =====
-- The CPU sets that test_mck/src/sched_setaffinity/000.c to 006.c allocate.
use mckernel_ostest_arm.Base.{
  ℕ, zero, suc, ◌+◌, ◌-◌, ◌≡◌, refl, arith, List, [], ◌∷◌, Option, none, some, Each, if◌then◌else◌,
}
use mckernel_ostest_arm.Base.Int.{ℤ, is_zero}
use mckernel_ostest_arm.Base.Trace.{Env, Proc, total_gain, total_loss}
use mckernel_ostest_arm.Affinity.{Event, Answer, Message, cpu_alloc, cpu_free, kill, max_int}
use mckernel_ostest_arm.Affinity.Cases.{
  with_set, or_free, run_000, run_001, run_002, run_003, run_004, run_005, run_006, refused,
  after_kill, after_search, search_pid,
}

abbrev pub allocated : Event → Answer → ℕ
allocated (cpu_alloc n) a = if is_zero a.ret then 0 else 1
allocated e a = 0

abbrev pub freed : Event → ℕ
freed cpu_free = 1
freed e = 0

-- A run from `h` on frees as many sets as it allocates.
abbrev pub Frees : Env Event Answer → List Event → Proc Event (Option Message) → Type 0
Frees env h run =
    total_gain allocated env (run h).1 + total_loss freed h
    ≡ total_loss freed (run h).1 + total_gain allocated env h

module _ (env : Env Event Answer) (cpu_alloc_size : ℤ → ℕ) where
  search_pid-unchanged :
      (left pid : ℕ) (h : List Event)
      → let h' = (search_pid env cpu_alloc_size left pid h).1 in
        (total_gain allocated env h' ≡ total_gain allocated env h)
        × (total_loss freed h' ≡ total_loss freed h)
  unfolding search_pid after_kill
  search_pid-unchanged zero pid h = (refl, refl)
  search_pid-unchanged (suc left) pid h =
      let rest = search_pid-unchanged left (pid + 1) (kill pid 0 ∷ h) in ground arith

  run_000-Frees : (n : ℤ) → Frees env [] (run_000 env cpu_alloc_size n)
  unfolding run_000 with_set or_free
  run_000-Frees n = ground arith

  run_001-Frees : (n : ℤ) → Frees env [] (run_001 env cpu_alloc_size n)
  unfolding run_001 with_set or_free
  run_001-Frees n = ground arith

  run_002-Frees : (n : ℤ) → Frees env [] (run_002 env cpu_alloc_size n)
  unfolding run_002 with_set or_free
  run_002-Frees n = ground arith

  after_search-Frees :
      (n : ℤ) (found : Option ℤ) (h : List Event)
      → Frees env h (after_search env cpu_alloc_size n found)
  unfolding after_search with_set refused
  after_search-Frees n none h = ground arith
  after_search-Frees n (some pid) h = ground arith

  run_006-Frees : (n : ℤ) → Frees env [] (run_006 env cpu_alloc_size n)
  unfolding run_006
  run_006-Frees n =
      let (found, h) = search_pid env cpu_alloc_size (max_int - 1) 2 [] in
      let search = search_pid-unchanged (max_int - 1) 2 [] in
      let rest = after_search-Frees n found h in ground arith

  -- Whatever the system answers, each of 000.c to 006.c frees with CPU_FREE as many sets as CPU_ALLOC gave
  -- it, on every way out.
  pub cases-Frees :
      (n : ℤ)
      → Each (Frees env []) (
          run_000 env cpu_alloc_size n
          ∷ run_001 env cpu_alloc_size n
          ∷ run_002 env cpu_alloc_size n
          ∷ run_003 env cpu_alloc_size n
          ∷ run_004 env cpu_alloc_size n
          ∷ run_005 env cpu_alloc_size
          ∷ run_006 env cpu_alloc_size n
          ∷ [])
  unfolding run_003 run_004 run_005 with_set refused
  cases-Frees n = (
    run_000-Frees n,
    (
      run_001-Frees n,
      (run_002-Frees n, (ground arith, (ground arith, (ground arith, (run_006-Frees n, tt))))),
    ),
  )
