-- ===== src/Dispatch/Choice.antt =====
-- Which test case `main` runs.
use mckernel_ostest_arm.Base.{
  ℕ, zero, suc, refl, ◌↔◌, inl, inr, ◌≤◌, ◌<◌, List, [], ◌∷◌, ◌≡◌, ◌⊎◌, none, some, arith, length,
  get_elem?, Bool-cases, leb, ltb, ◌==◌, ==_iff, Option-cases, ap, false,
}
use mckernel_ostest_arm.Base.Int.{ℤ, pos, negsuc}
use mckernel_ostest_arm.Base.Trace.{Proc}
use mckernel_ostest_arm.Dispatch.{Outcome, exited, fault, TestCase, choose, dispatch}

get_elem?-of_lt {ℓ} :
    {A : Type ℓ} (xs : List A) (i : ℕ) → i < length xs → (x : A) × (get_elem? xs i ≡ some x)
get_elem?-of_lt [] i h = elim h [ ]
get_elem?-of_lt (x ∷ xs) zero h = (x, refl)
get_elem?-of_lt (x ∷ xs) (suc i) h = get_elem?-of_lt xs i (omega arith)

module _ {C : Type 0} (test_cases : List (TestCase C)) (h : List C) where
  -- The entry that an index within the table selects is run, or is NULL.
  choose_in_range :
      (o t : ℕ)
      → o ≤ 63
      → t < length test_cases
      → ((func : ℤ → ℤ → Proc C ℤ) × (get_elem? test_cases t ≡ some (some func))
          × (choose test_cases (pos o) (pos t) h
              ≡ (exited (func (pos t) (pos o) h).0, (func (pos t) (pos o) h).1)))
        ⊎ ((get_elem? test_cases t ≡ some none)
            × (choose test_cases (pos o) (pos t) h ≡ (exited (negsuc 0), h)))
  unfolding choose
  choose_in_range o t lo lt =
      let (entry, e) = get_elem?-of_lt test_cases t lt in
      let small : ltb 63 o ≡ false = ground arith in
      let within : leb (length test_cases) t ≡ false = ground arith in
      elim (Option-cases entry) [
        | inl null ↦ inr (rw e (ap some null), rw (small, within, e, null))
        | inr (func, found) ↦ inl (func, rw e (ap some found), rw (small, within, e, found))
      ]

  choose_fault :
      (os_num tp_num : ℤ)
      → (choose test_cases os_num tp_num h).0 ≡ fault
      → ((o : ℕ) × (os_num ≡ pos o) × (o ≤ 63)) × ((k : ℕ) × (tp_num ≡ negsuc k))
  unfolding choose
  choose_fault (negsuc o) tp_num e = cc
  choose_fault (pos o) (negsuc k) e = ((o, refl, ground arith), (k, refl))
  choose_fault (pos o) (pos t) e = elim (Bool-cases (ltb 63 o)) [
    | inl large ↦ absurd (cc (rw large at e))
    | inr small ↦ elim (Bool-cases (leb (length test_cases) t)) [
      | inl out ↦ absurd (cc (rw (small, out) at e))
      | inr within ↦ elim (choose_in_range o t (ground arith) (ground arith)) [
        | inl (func, found, runs) ↦ absurd (cc (ap (λ (r : Outcome × List C). r.0) runs))
        | inr (null, runs) ↦ absurd (cc (ap (λ (r : Outcome × List C). r.0) runs))
      ]
    ]
  ]

module _ {C A : Type 0} (atoi : A → ℤ) (test_cases : List (TestCase C)) (prog os tp : A)
    (h : List C) where
  -- When the usage text has an entry for each test case, then with an OS number up to 63 and a test
  -- number that is not negative, `main` makes the calls of that test case, with both numbers, and
  -- exits with its result, if there is such a test case; it exits with -1 and makes no call if its
  -- pointer is NULL or the number is too large.
  pub dispatch_runs :
      (o t : ℕ)
      → atoi os ≡ pos o
      → o ≤ 63
      → atoi tp ≡ pos t
      → ((func : ℤ → ℤ → Proc C ℤ) × (get_elem? test_cases t ≡ some (some func))
          × (dispatch atoi (length test_cases) test_cases (prog ∷ os ∷ tp ∷ []) h
              ≡ (exited (func (pos t) (pos o) h).0, (func (pos t) (pos o) h).1)))
        ⊎ (((get_elem? test_cases t ≡ some none) ⊎ (length test_cases ≤ t))
            × (dispatch atoi (length test_cases) test_cases (prog ∷ os ∷ tp ∷ []) h
                ≡ (exited (negsuc 0), h)))
  unfolding dispatch
  dispatch_runs o t eo lo et = elim (Bool-cases (leb (length test_cases) t)) [
    | inl out ↦ inr (inr (ground arith), rw (eo, et) (ground arith))
    | inr within ↦ elim (choose_in_range test_cases h o t lo (ground arith)) [
      | inl (func, found, runs) ↦ inl (func, found, rw (eo, et) (ground arith))
      | inr (null, runs) ↦ inr (inl null, rw (eo, et) (ground arith))
    ]
  ]

  -- Given two arguments, `main` reads outside the table exactly when the table fits the usage text,
  -- the OS number is valid and the test number is negative.
  pub dispatch-eq-fault_iff :
      (usage_count : ℕ)
      → ((dispatch atoi usage_count test_cases (prog ∷ os ∷ tp ∷ []) h).0 ≡ fault) ↔ (
          (usage_count ≡ length test_cases)
          × ((o : ℕ) × (atoi os ≡ pos o) × (o ≤ 63))
          × ((k : ℕ) × (atoi tp ≡ negsuc k)))
  unfolding dispatch
  dispatch-eq-fault_iff usage_count = (
    λ e. elim (Bool-cases (usage_count == length test_cases)) [
      | inl fits ↦
          let (os_ok, negative) = choose_fault test_cases h (atoi os) (atoi tp) (rw fits at e) in
          ((==_iff usage_count (length test_cases)).0 fits, os_ok, negative)
      | inr differs ↦ absurd (cc (rw differs at e))
    ],
    λ (fits, (o, eo, lo), (k, et)). rw (eo, et) (ground arith),
  )
