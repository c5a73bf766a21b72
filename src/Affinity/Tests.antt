-- ===== src/Affinity/Tests.antt =====
-- The theorems on test_mck/src/sched_setaffinity, on a system with four CPUs.
use mckernel_ostest_arm.Base.{
  ℕ, ◌≡◌, refl, arith, List, [], ◌∷◌, leb, ◌&&◌, none, some, Each, if◌then◌else◌,
}
use mckernel_ostest_arm.Base.Int.{ℤ, pos, negsuc}
use mckernel_ostest_arm.Base.Trace.{Env}
use mckernel_ostest_arm.Affinity.{
  Event, Answer, cpu_alloc, cpu_free, get_cpu_id, sched_getaffinity, sched_setaffinity, write_xg,
  write_xf, kill,
}
use mckernel_ostest_arm.Affinity.Cases.{
  run_000, run_001, run_002, run_003, run_004, run_005, run_006, search_pid, after_kill,
}
use mckernel_ostest_arm.Affinity.Released.{Frees, cases-Frees}
use mckernel_ostest_arm.Affinity.Moved.{position, any_online, Placed, own_migration}

abbrev gives : ℤ → List ℤ → Answer
gives ret set = record { ret = ret; errno = 22; set = set }

abbrev four_cpus : Env Event Answer
four_cpus h (cpu_alloc n) = gives (pos 4096) []
four_cpus h get_cpu_id = gives (position 8 4 (pos 3) h) []
four_cpus h (sched_getaffinity size) =
    gives (if leb 8 size then pos 0 else negsuc 0) (position 8 4 (pos 3) h ∷ pos 0 ∷ [])
four_cpus h (sched_setaffinity pid size (some set)) =
    gives (if any_online 4 set && leb 8 size then pos 0 else negsuc 0) []
four_cpus h (sched_setaffinity pid size none) = gives (negsuc 0) []
four_cpus h cpu_free = gives (pos 0) []
four_cpus h (write_xg a b c d) = gives (pos 0) []
four_cpus h write_xf = gives (pos 0) []
four_cpus h (kill pid sig) = record { ret = negsuc 0; errno = 3; set = [] }

four_cpus-Placed :
    (h : List Event) (e : Event) → Placed 8 4 (position 8 4 (pos 3) h) e (four_cpus h e)
four_cpus-Placed h (cpu_alloc n) = refl
four_cpus-Placed h get_cpu_id = refl
four_cpus-Placed h (sched_getaffinity size) = ground arith
four_cpus-Placed h (sched_setaffinity pid size (some set)) = ground arith
four_cpus-Placed h (sched_setaffinity pid size none) = tt
four_cpus-Placed h cpu_free = tt
four_cpus-Placed h (write_xg a b c d) = tt
four_cpus-Placed h write_xf = tt
four_cpus-Placed h (kill pid sig) = tt

abbrev alloc_size : ℤ → ℕ
alloc_size n = 8

own_migration_example :
    (let (m, h) = run_000 four_cpus alloc_size (pos 4) [] in
      (m ≡ none) × (position 8 4 (pos 3) h ≡ pos 3))
    × (let (m, h) = run_001 four_cpus alloc_size (pos 4) [] in
        (m ≡ none) × (position 8 4 (pos 3) h ≡ pos 2))
own_migration_example =
    own_migration four_cpus alloc_size 8 4 3 four_cpus-Placed 4 (omega arith) (omega arith)
      (omega arith)

cases-Frees_example : Each (Frees four_cpus []) (
    run_000 four_cpus alloc_size (pos 2)
    ∷ run_001 four_cpus alloc_size (pos 2)
    ∷ run_002 four_cpus alloc_size (pos 2)
    ∷ run_003 four_cpus alloc_size (pos 2)
    ∷ run_004 four_cpus alloc_size (pos 2)
    ∷ run_005 four_cpus alloc_size
    ∷ run_006 four_cpus alloc_size (pos 2)
    ∷ [])
cases-Frees_example = cases-Frees four_cpus alloc_size (pos 2)

-- The first number that is tried has no process.
search_pid_first : (search_pid four_cpus alloc_size 3 2 []).0 ≡ some (pos 2)
unfolding search_pid after_kill
search_pid_first = refl
