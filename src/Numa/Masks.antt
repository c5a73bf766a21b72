-- ===== src/Numa/Masks.antt =====
-- Which masks and which policies the checks accept.
use mckernel_ostest_arm.Base.{
  ℕ, zero, suc, ◌+◌, ◌-◌, ◌*◌, ◌/◌, ◌%◌, ◌^◌, ◌<◌, ◌≤◌, ◌≡◌, ◌↔◌, inl, inr, refl, ap, List, [], ◌∷◌,
  true, Option, none, some, ◌==◌, ltb, ltb→lt, length, get_or, arith, Bool-cases,
}
use native.Mathlib.Numerals.{unary_clauses}
use mckernel_ostest_arm.Base.Int.{ℤ, pos, negsuc}
use mckernel_ostest_arm.Numa.{check_full, check_words, node_mask_check}

-- The number that the words of a mask stand for, the first word lowest.
abbrev pub value : List ℕ → ℕ
value [] = 0
value (w ∷ mask) = w + 2 ^ 64 * value mask

-- Every word is an unsigned long.
abbrev pub Words : List ℕ → Type 0
Words [] = Unit
Words (w ∷ mask) = (w < 2 ^ 64) × Words mask

-- `n` times 2 to the power of 64 for each word.
abbrev pub shifted : (words n : ℕ) → ℕ
shifted zero n = n
shifted (suc k) n = 2 ^ 64 * shifted k n

-- The loop accepts exactly the masks whose words before the last are full.
check_full_iff :
    (mask : List ℕ) (k : ℕ)
    → (check_full mask k ≡ pos 0) ↔ ((i : ℕ) → i < k → 2 ^ 64 - 1 ≤ get_or mask i 0)
unfolding check_full
check_full_iff mask zero = (λ e i lt. elim lt [ ], λ all. refl)
check_full_iff mask (suc k) = elim (Bool-cases (2 ^ 64 - 1 - get_or mask k 0 == 0)) [
  | inr some_clear ↦
      rw some_clear (λ e. cc, λ all. absurd (let full = all k (omega arith) in ground arith))
  | inl full ↦
      let (sound, complete) = check_full_iff mask k in
      rw full (
        λ e i lt. upto i lt (ground arith) (sound e),
        λ all. complete (λ i lt. all i (omega arith)),
      )
]
  where
    upto :
        (i : ℕ)
        → i < suc k
        → 2 ^ 64 - 1 ≤ get_or mask k 0
        → ((j : ℕ) → j < k → 2 ^ 64 - 1 ≤ get_or mask j 0)
        → 2 ^ 64 - 1 ≤ get_or mask i 0
    upto i lt last before = elim (Bool-cases (ltb i k)) [
      | inl less ↦ before i (ltb→lt i k less)
      | inr ge ↦ let same : i ≡ k = ground arith in rw same last
    ]

-- The words before word `k`, the last, are full and the last is one less than `n` exactly when the
-- number is one less than `n` behind `k` full words.
value_iff :
    (mask : List ℕ) (k n : ℕ)
    → Words mask
    → length mask ≡ suc k
    → (value mask + 1 ≡ shifted k n)
      ↔ (((i : ℕ) → i < k → 2 ^ 64 - 1 ≤ get_or mask i 0) × (get_or mask k 0 + 1 ≡ n))
value_iff [] k n words e = absurd (omega arith)
value_iff (w ∷ []) zero n words e =
    (λ v. (λ i lt. elim lt [ ], omega arith), λ (all, last). omega arith)
value_iff (w ∷ x ∷ mask) zero n words e = absurd (omega arith)
value_iff (w ∷ mask) (suc k) n (fits, words) e =
    let (there, back) = value_iff mask k n words (omega arith) in
    (
      λ v. let (full, last) = there (omega arith) in (λ i. first full i (omega arith), last),
      λ (all, last).
          let rest = back (λ i lt. all (suc i) (omega arith), last) in
          let here : 2 ^ 64 - 1 ≤ w = all zero (omega arith) in omega arith,
    )
  where
    first :
        ((i : ℕ) → i < k → 2 ^ 64 - 1 ≤ get_or mask i 0)
        → (i : ℕ) → 2 ^ 64 - 1 ≤ w
        → i < suc k
        → 2 ^ 64 - 1 ≤ get_or (w ∷ mask) i 0
    first full zero here lt = here
    first full (suc i) here lt = full i (omega arith)

pow_pos : (n : ℕ) → 0 < 2 ^ n
pow_pos zero = omega arith
pow_pos (suc n) = simp unary_clauses (omega (arith, pow_pos n))

-- For a mask of 64-bit words, one word more than the number of nodes has full words, of which the
-- last has to hold fewer than 31 nodes, the check returns 0 exactly when the mask is the number in
-- which the bits of the first `num_bits` nodes are set and no other.
pub node_mask_check_iff :
    (mask : List ℕ) (num_bits : ℕ)
    → Words mask
    → length mask ≡ suc (num_bits / 64)
    → num_bits % 64 < 31
    → (node_mask_check mask (suc (num_bits / 64)) num_bits ≡ some (pos 0))
      ↔ (value mask + 1 ≡ shifted (num_bits / 64) (2 ^ (num_bits % 64)))
unfolding node_mask_check check_words
node_mask_check_iff mask num_bits words e small =
    let k = num_bits / 64 in
    let bits = 2 ^ (num_bits % 64) in
    let (there, back) = value_iff mask k bits words e in
    let (sound, complete) = check_full_iff mask k in
    let defined : ltb (num_bits % 64) 31 ≡ true = ground arith in
    let some_bit : 0 < bits = pow_pos (num_bits % 64) in
    rw defined (elim (Bool-cases (get_or mask k 0 == bits - 1)) [
      | inr differs ↦ rw differs (λ z. cc, λ v. let (full, last) = there v in absurd (ground arith))
      | inl same ↦ rw same (
        λ z. back (sound (ap (λ (o : Option ℤ). unsome o) z), ground arith),
        λ v. let (full, last) = there v in ap some (complete full),
      )
    ])
  where
    unsome : Option ℤ → ℤ
    unsome none = negsuc 0
    unsome (some z) = z
