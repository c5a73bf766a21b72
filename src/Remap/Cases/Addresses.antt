-- ===== src/Remap/Cases/Addresses.antt =====
-- Where the test cases of test_mck/src/mremap_mmap_anon have their elements, as they are laid out.
use mckernel_ostest_arm.Base.{ℕ, zero, suc, ◌+◌, List, [], ◌∷◌, map}
use mckernel_ostest_arm.Remap.Anon.{Param}

abbrev pub sizes : List Param → List ℕ
sizes = map (λ p. p.size)

-- Where an element starts, from the start of the reserved range on.
abbrev pub start : (sizes : List ℕ) (i : ℕ) → ℕ
start [] i = 0
start (s ∷ rest) zero = 0
start (s ∷ rest) (suc i) = s + start rest i
