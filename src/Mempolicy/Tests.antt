-- ===== src/Mempolicy/Tests.antt =====
-- A kernel with two nodes that keeps the policies, on which test cases run.
use mckernel_ostest_arm.Base.{
  ℕ, ◌+◌, ◌^◌, ◌≤◌, List, [], ◌∷◌, ◌≡◌, inl, refl, arith, none, some, ltb, length, ◌%◌,
  if◌then◌else◌,
}
use mckernel_ostest_arm.Base.Int.{ℤ, pos, negsuc}
use mckernel_ostest_arm.Base.Trace.{Env, total_gain, total_loss}
use mckernel_ostest_arm.Harness.Number.{align_up}
use mckernel_ostest_arm.Numa
use mckernel_ostest_arm.Mempolicy.{Event, numa, get_mempolicy, mmap, Answer, failed, not_failed}
use mckernel_ostest_arm.Mempolicy.Run.{
  run_test, run_steps, run_step, create_mask, after_step, destroy, unmap,
}
use mckernel_ostest_arm.Mempolicy.Bind
use mckernel_ostest_arm.Mempolicy.Regions
use mckernel_ostest_arm.Mempolicy.Regions.Painted.{policy_of}
use mckernel_ostest_arm.Mempolicy.Ownership.{made, freed}
use mckernel_ostest_arm.Mempolicy.Interleave
use mckernel_ostest_arm.Mempolicy.Interleave.Released.{
  Located, mapped_at, unmapped_at, tail, case_018-covers,
}
use mckernel_ostest_arm.Mempolicy.Balance.{all_cases_balanced}
use mckernel_ostest_arm.Mempolicy.Sound.{Sound}

abbrev answer : (ret : ℤ) → (policy : ℤ × ℕ) → Answer
answer ret policy = record { ret = ret; errno = 0; mode = policy.0; mask = policy.1 ∷ [] }

abbrev kernel : Env Event Answer
kernel h (numa (Numa.malloc size)) = answer (pos 4096) (pos 0, 0)
kernel h (numa (Numa.get_mempolicy maxnode a flags)) = answer (pos 0) (policy_of h a)
kernel h (get_mempolicy mode mask maxnode a flags) = answer (pos 0) (policy_of h a)
kernel h (mmap len) = answer (pos 65536) (pos 0, 0)
kernel h e = answer (pos 0) (pos 0, 0)

all_cases_balanced_example :
    let (stop, h) = run_test kernel 2 (Bind.case_005 4096 2 8192) [] in
    total_gain made kernel h ≡ total_loss freed h
all_cases_balanced_example =
    all_cases_balanced kernel 4096 2 8192 5 (Bind.case_005 4096 2 8192) refl

case_005_passes : (run_test kernel 2 (Bind.case_005 4096 2 8192) []).0 ≡ none
unfolding run_test run_steps run_step create_mask Numa.create_node_mask after_step destroy unmap
    align_up
case_005_passes = refl

-- A kernel that accepts a negative mode fails 030.c.
case_030_fails : (run_test kernel 2 (Bind.case_030 4096 2 8192) []).0 ≡ some (failed not_failed)
unfolding run_test run_steps run_step create_mask Numa.create_node_mask after_step destroy unmap
    align_up
case_030_fails = refl

-- The mask of node 0 and 1, and a mode that changes with the number of calls.
abbrev interleaved : Env Interleave.Event Answer
interleaved h (Interleave.policy (numa e)) = answer (pos 4096) (pos 0, 0)
interleaved h (Interleave.policy (get_mempolicy mode (some mask) maxnode a flags)) =
    answer (pos 0) (pos 3, 3)
interleaved h (Interleave.policy (get_mempolicy mode none maxnode a flags)) =
    answer (pos 0) (pos (length h % 3), 3)
interleaved h (Interleave.policy e) = answer (pos 0) (pos 0, 0)
interleaved h (Interleave.mmap_reserve len) =
    answer (if ltb (4096 + len) (2 ^ 64) then pos 4096 else negsuc 0) (pos 0, 0)
interleaved h (Interleave.mmap_fixed a len) = answer (pos a) (pos 0, 0)
interleaved h (Interleave.munmap a len) = answer (pos 0) (pos 0, 0)

interleaved-Located :
    (h : List Interleave.Event) (e : Interleave.Event) → Located e (interleaved h e)
interleaved-Located h (Interleave.mmap_reserve len) = ground arith
interleaved-Located h (Interleave.mmap_fixed a len) = inl refl
interleaved-Located h (Interleave.policy e) = tt
interleaved-Located h (Interleave.munmap a len) = tt

case_018-covers_example :
    let (stop, h) = Interleave.case_018 interleaved 8192 2 [] in
    (total_loss (unmapped_at 16384) h ≤ total_gain (mapped_at 16384) interleaved h + tail stop)
    × (total_gain (mapped_at 16384) interleaved h ≤ total_loss (unmapped_at 16384) h + tail stop)
case_018-covers_example = case_018-covers interleaved 8192 16384 (omega arith) interleaved-Located 2

-- 018.c passes where the node changes, and has reserved the address three times.
case_018_passes :
    let (stop, h) = Interleave.case_018 interleaved 8192 2 [] in
    (stop ≡ none) × (total_gain (mapped_at 16384) interleaved h ≡ 3)
unfolding Interleave.case_018 Interleave.run_func Interleave.first Interleave.rounds
    Interleave.one_round Interleave.after_round Interleave.after_reserve Interleave.after_fixed
    Interleave.after_fetch Interleave.release Interleave.tear_down run_steps run_step create_mask
    Numa.create_node_mask after_step align_up
case_018_passes = (refl, refl)

-- The mode stays the same: the end of the range stays mapped.
abbrev fixed_mode : Env Interleave.Event Answer
fixed_mode h (Interleave.policy (get_mempolicy mode none maxnode a flags)) =
    answer (pos 0) (pos 1, 3)
fixed_mode h e = interleaved h e

case_018_leaks :
    let (stop, h) = Interleave.case_018 fixed_mode 8192 2 [] in
    (total_gain (mapped_at 16384) fixed_mode h ≡ 1) × (total_loss (unmapped_at 16384) h ≡ 0)
unfolding Interleave.case_018 Interleave.run_func Interleave.first Interleave.rounds
    Interleave.one_round Interleave.after_round Interleave.after_reserve Interleave.after_fixed
    Interleave.after_fetch Interleave.release Interleave.tear_down run_steps run_step create_mask
    Numa.create_node_mask after_step align_up
case_018_leaks = (refl, refl)

-- mmap with MAP_FIXED fails: munmap is called with a length of nearly the whole address space.
abbrev no_fixed : Env Interleave.Event Answer
no_fixed h (Interleave.mmap_fixed a len) = answer (negsuc 0) (pos 0, 0)
no_fixed h e = interleaved h e

case_018_unmaps_all :
    let (stop, h) = Interleave.case_018 no_fixed 8192 2 [] in
    (total_gain (mapped_at 65536) no_fixed h ≡ 0) × (total_loss (unmapped_at 65536) h ≡ 1)
unfolding Interleave.case_018 Interleave.run_func Interleave.first Interleave.rounds
    Interleave.one_round Interleave.after_round Interleave.after_reserve Interleave.after_fixed
    Interleave.after_fetch Interleave.release Interleave.tear_down run_steps run_step create_mask
    Numa.create_node_mask after_step align_up
case_018_unmaps_all = (refl, refl)
