-- ===== src/Remap/Tests.antt =====
-- Two parts, the first of them without pages, placed by an mmap that always succeeds.
use mckernel_ostest_arm.Base.{
  ℕ, ◌+◌, ◌^◌, ◌<◌, List, [], ◌∷◌, ◌≡◌, ◌⊎◌, inl, inr, refl, Bool, true, false, none, arith, ltb,
  ltb→lt, Bool-cases, if◌then◌else◌,
}
use mckernel_ostest_arm.Base.Int.{ℤ, pos}
use mckernel_ostest_arm.Base.Trace.{Env}
use mckernel_ostest_arm.Remap.Anon.{
  Param, Call, mmap, map_failed, initialize, place, format, mremap_mmap_anon,
}
use mckernel_ostest_arm.Remap.Layout.{Laid, HonoursFixed, Fits, mremap_mmap_anon-Laid}
use mckernel_ostest_arm.Remap.Checks.{data_check, access_check}
use mckernel_ostest_arm.Remap.Cases.{
  Event, anon, mremap, Answer, returned, exited, lay_out, run_checks, run_case,
}
use mckernel_ostest_arm.Remap.Cases.Private
use mckernel_ostest_arm.Remap.Cases.Shared
use mckernel_ostest_arm.Remap.Cases.LargePrivate
use mckernel_ostest_arm.Remap.Cases.LargeShared
use mckernel_ostest_arm.Remap.Cases.Sound.{Sound}

abbrev part : (size : ℕ) → (nopage : Bool) → Param
part size nopage = record { addr = pos 0; size = size; nopage = nopage; shared = false; prot = 3 }

abbrev parts : List Param
parts = part 4096 true ∷ part 8192 false ∷ []

-- What mmap gives for an address: itself, if its range ends within the address space.
abbrev granted : (a len : ℕ) → ℤ
granted a len = if ltb (a + len) (2 ^ 64) then pos a else map_failed

abbrev kernel : Env Call ℤ
kernel h (mmap a len prot flags) = granted a len
kernel h c = pos 0

kernel-HonoursFixed : HonoursFixed kernel
kernel-HonoursFixed h a len prot share = ground arith

kernel-Fits : Fits kernel
kernel-Fits h len = granted_0 len
  where
    granted_0 :
        (len : ℕ)
        → (granted 0 len ≡ map_failed) ⊎ ((a : ℕ) × (granted 0 len ≡ pos a) × (a + len < 2 ^ 64))
    granted_0 len = elim (Bool-cases (ltb (0 + len) (2 ^ 64))) [
      | inl fits ↦ inr (0, rw fits, ltb→lt (0 + len) (2 ^ 64) fits)
      | inr large ↦ inl (rw large)
    ]

placed : (mremap_mmap_anon kernel parts []).0.1 ≡ 2
unfolding mremap_mmap_anon initialize format place
placed = refl

mremap_mmap_anon-Laid_example :
    let ((params', n), h') = mremap_mmap_anon kernel parts [] in
    (n < 2) ⊎ ((n ≡ 2) × (base : ℕ) × Laid base params')
mremap_mmap_anon-Laid_example =
    mremap_mmap_anon-Laid kernel parts [] kernel-HonoursFixed kernel-Fits
      (omega arith, (omega arith, tt)) (omega arith)

-- Pages of two bytes, a kernel that maps and moves as it is asked, and memory full of '0'.
abbrev kernel_of_case : Env Event Answer
kernel_of_case h (anon c) = record { ret = kernel [] c; errno = 0; mem = λ a. b'0'; raised = false }
kernel_of_case h (mremap a old_len new_len flags to) = record {
  ret = pos to;
  errno = 0;
  mem = λ a. b'0';
  raised = false;
}
kernel_of_case h e = record { ret = pos 0; errno = 0; mem = λ a. b'0'; raised = true }

case_006_passes : (run_case kernel_of_case (Private.case_006 2) []).0 ≡ returned none
unfolding run_case run_checks lay_out mremap_mmap_anon initialize format place data_check
    access_check
case_006_passes = refl

case_016_exits : (run_case kernel_of_case (Private.case_016 2) []).0 ≡ exited
unfolding run_case run_checks lay_out mremap_mmap_anon initialize format place data_check
    access_check
case_016_exits = refl

case_007-Sound : Sound (Private.case_007 4096)
case_007-Sound = ground arith
