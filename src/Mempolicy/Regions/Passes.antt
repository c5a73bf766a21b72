-- ===== src/Mempolicy/Regions/Passes.antt =====
-- The test cases 015.c to 023.c of test_mck/src/mbind pass on a kernel that keeps the policies.
use mckernel_ostest_arm.Base.{◌⊎◌, ℕ, ◌+◌, ◌^◌, ◌≤◌, ◌<◌, List, ◌≡◌, false}
use mckernel_ostest_arm.Base.Int.{pos, is_zero}
use mckernel_ostest_arm.Base.Trace.{Env}
use mckernel_ostest_arm.Numa
use mckernel_ostest_arm.Numa.{mbind_check}
use mckernel_ostest_arm.Mempolicy.{Event, numa, mmap, Answer}
use mckernel_ostest_arm.Mempolicy.Regions.{Case, num_region}
use mckernel_ostest_arm.Mempolicy.Regions.Painted.{outcome, Valid}

-- The arguments are valid, and the expected values are their outcome.
abbrev pub Right : Case → Type 0
Right c = Valid c.m_args × (c.m_expect ≡ outcome c.m_args 0 num_region)

-- malloc does not fail, nor does mmap for less than half of the address space; and the range of mmap
-- lies inside it.
abbrev pub GivesMemory : Env Event Answer → Type 0
GivesMemory env =
    ((h : List Event) (size : ℕ) → is_zero (env h (numa (Numa.malloc size))).ret ≡ false)
    × ((h : List Event) (len : ℕ)
        → (2 ^ 63 ≤ len)
          ⊎ ((base : ℕ) × ((env h (mmap len)).ret ≡ pos base) × (base + len < 2 ^ 64)))
