-- ===== src/Remap/Layout.antt =====
-- Where mremap_mmap_anon places its parts.
use mckernel_ostest_arm.Base.{
  ℕ, suc, ◌+◌, ◌%◌, ◌^◌, ◌≤◌, ◌<◌, List, [], ◌∷◌, ◌≡◌, ◌⊎◌, inl, inr, refl, true, none, some, arith,
  length, ltb, ltb→lt, Bool-cases, Option-cases, if◌then◌else◌,
}
use mckernel_ostest_arm.Base.Int.{ℤ, pos}
use mckernel_ostest_arm.Base.Trace.{Env}
use mckernel_ostest_arm.Remap.Anon.{
  Param, Call, mmap, map_failed, map_fixed, map_anonymous, map_shared, map_private, initialize,
  place, format, mremap_mmap_anon,
}

abbrev pub sum_sizes : List Param → ℕ
sum_sizes [] = 0
sum_sizes (p ∷ params) = p.size + sum_sizes params

-- Every size is a size_t.
abbrev pub Sized : List Param → Type 0
Sized [] = Unit
Sized (p ∷ params) = (p.size < 2 ^ 64) × Sized params

-- For sizes and a start that are size_t, the check for a wrapped sum is exact: the loop gives the
-- sum of the sizes if it fits a size_t, and fails otherwise.
initialize-sum :
    (params : List Param) (t : ℕ)
    → Sized params
    → t < 2 ^ 64
    → (initialize t params).0
      ≡ (if ltb (t + sum_sizes params) (2 ^ 64) then some (t + sum_sizes params) else none)
unfolding initialize
initialize-sum [] t sized lt = ground arith
initialize-sum (p ∷ params) t sized lt =
    ground (arith, initialize-sum params ((t + p.size) % 2 ^ 64) sized.1)

-- The parts follow one another from the address on.
abbrev pub Laid : ℕ → List Param → Type 0
Laid a [] = Unit
Laid a (p ∷ params) = (p.addr ≡ pos a) × Laid (a + p.size) params

-- What mmap documents: with MAP_FIXED it gives the address that it was asked for, or fails.
abbrev pub HonoursFixed : Env Call ℤ → Type 0
HonoursFixed env =
    (h : List Call) (a len prot share : ℕ)
    → let r = env h (mmap a len prot (map_anonymous + map_fixed + share)) in
      (r ≡ pos a) ⊎ (r ≡ map_failed)

module _ (env : Env Call ℤ) (fixed : HonoursFixed env) where
  place_lem :
      (i a : ℕ) (p : Param) (h : List Call)
      → a + p.size < 2 ^ 64
      → ((place env i a p h).0.0 ≡ true → (place env i a p h).0.1 ≡ a + p.size)
  unfolding place
  place_lem i a p h fits =
      let r = if p.shared then map_shared else map_private in
      ground (arith, fixed h a p.size p.prot r)

  format_lem :
      (i a : ℕ) (params : List Param) (h : List Call)
      → a + sum_sizes params < 2 ^ 64
      → let ((params', n), h') = format env i a params h in
        (n ≤ i + length params) × (n ≡ i + length params → Laid a params')
  unfolding format
  format_lem i a [] h fits = (omega arith, λ _. tt)
  format_lem i a (p ∷ params) h fits =
      let ((going, next), h') = place env i a p h in
      elim (Bool-cases going) [
        | inr stopped ↦ rw stopped (omega arith, λ full. absurd (omega arith))
        | inl goes ↦
            let placed = place_lem i a p h (omega arith) goes in
            let (bound, laid) = format_lem (suc i) (a + p.size) params h' (omega arith) in
            rw (goes, placed) (omega arith, λ full. (refl, laid (omega arith)))
      ]

initialize_shape :
    (params : List Param) (t : ℕ)
    → let params' = (initialize t params).1 in
      (sum_sizes params' ≡ sum_sizes params) × (length params' ≡ length params)
unfolding initialize
initialize_shape [] t = (refl, refl)
initialize_shape (p ∷ params) t = ground (arith, initialize_shape params ((t + p.size) % 2 ^ 64))

-- What mmap documents of the address that it chooses: it fails, or the range lies inside the
-- address space.
abbrev pub Fits : Env Call ℤ → Type 0
Fits env =
    (h : List Call) (len : ℕ)
    → let r = env h (mmap 0 len 0 (map_shared + map_anonymous)) in
      (r ≡ map_failed) ⊎ ((a : ℕ) × (r ≡ pos a) × (a + len < 2 ^ 64))

mremap_mmap_anon_bound :
    (env : Env Call ℤ) (params : List Param) (h : List Call)
    → HonoursFixed env
    → Fits env
    → Sized params
    → 0 < length params
    → let ((params', n), h') = mremap_mmap_anon env params h in
      (n ≤ length params) × (n ≡ length params → (base : ℕ) × Laid base params')
unfolding mremap_mmap_anon
mremap_mmap_anon_bound env params h fixed inside sized some_part =
    let (total, params') = initialize 0 params in
    let (same_sum, same_length) = initialize_shape params 0 in
    let exact = initialize-sum params 0 sized (omega arith) in
    elim (Option-cases total) [
      | inl wrapped ↦ rw (wrapped, mremap_mmap_anon) (omega arith, λ full. absurd (omega arith))
      | inr (t, fits) ↦
          let is_sum : t ≡ sum_sizes params = ground arith in
          elim (inside h t) [
            | inl failed ↦
                rw (fits, mremap_mmap_anon) (rw failed (omega arith, λ full. absurd (omega arith)))
            | inr (a, chosen, room) ↦
                let h1 = mmap 0 t 0 (map_shared + map_anonymous) ∷ h in
                let (bound, laid) = format_lem env fixed 0 a params' h1 (omega arith) in
                rw (fits, mremap_mmap_anon)
                  (rw chosen (omega arith, λ full. (a, laid (omega arith))))
          ]
    ]

-- If mmap honours MAP_FIXED and chooses ranges inside the address space, then for one part or more,
-- each of a size below 2^64, mremap_mmap_anon returns either a number below theirs, or their number,
-- and then the parts lie one behind the other, in order and without a gap, from some address on.
pub mremap_mmap_anon-Laid :
    (env : Env Call ℤ) (params : List Param) (h : List Call)
    → HonoursFixed env
    → Fits env
    → Sized params
    → 0 < length params
    → let ((params', n), h') = mremap_mmap_anon env params h in
      (n < length params) ⊎ ((n ≡ length params) × (base : ℕ) × Laid base params')
mremap_mmap_anon-Laid env params h fixed inside sized some_part =
    let (bound, laid) = mremap_mmap_anon_bound env params h fixed inside sized some_part in
    let n = (mremap_mmap_anon env params h).0.1 in
    elim (Bool-cases (ltb n (length params))) [
      | inl less ↦ inl (ltb→lt n (length params) less)
      | inr full ↦
          let all : n ≡ length params = ground arith in
          let (base, parts) = laid all in inr (all, base, parts)
    ]
