-- ===== src/LargePages/Tests.antt =====
-- A kernel that maps what fits from 4096 on, and one that grants everything.
use mckernel_ostest_arm.Base.{
  ℕ, ◌+◌, ◌^◌, ◌≡◌, inl, inr, refl, [], ◌∷◌, ltb, ltb→lt, ◌-◌, if◌then◌else◌, Bool-cases,
}
use mckernel_ostest_arm.Base.Int.{ℤ, pos, negsuc}
use mckernel_ostest_arm.Base.Trace.{Env}
use mckernel_ostest_arm.LargePages.{
  Call, mmap, load, munmap, access, rounds, test_anon, size_1gb, run_test, select, main,
}
use mckernel_ostest_arm.LargePages.Access.{mapped, unmapped, stray, Fits, main_contained}

abbrev granted : (len : ℕ) → ℤ
granted len = if ltb (4096 + len) (2 ^ 64) then pos 4096 else negsuc 0

abbrev kernel : Env Call ℤ
kernel h (mmap len prot flags) = granted len
kernel h c = pos 0

kernel-Fits : Fits kernel
kernel-Fits h len prot flags = elim (Bool-cases (ltb (4096 + len) (2 ^ 64))) [
  | inl fits ↦ inr (4096, rw fits refl, ltb→lt (4096 + len) (2 ^ 64) fits)
  | inr large ↦ inl (rw large refl)
]

abbrev atoi : ℤ → ℤ
atoi n = n

third_test :
    main kernel atoi (pos 0 ∷ pos 3 ∷ []) []
    ≡ (pos 0, munmap 4096 size_1gb ∷ load (4096 + size_1gb - 8) ∷ mmap size_1gb 7 0x22 ∷ [])
unfolding main select run_test test_anon rounds access
third_test = refl

main_contained_example :
    let h' = (main kernel atoi (pos 0 ∷ pos 4 ∷ []) []).1 in
    (mapped kernel h' + 0 ≡ unmapped h' + 0) × (stray kernel h' ≡ 0)
main_contained_example = main_contained kernel kernel-Fits atoi (pos 0 ∷ pos 4 ∷ []) []
