-- ===== src/Perf/Sequence.antt =====
-- What the loops of the test cases 000.c to 005.c measure.
use mckernel_ostest_arm.Base.{
  ℕ, zero, suc, ◌+◌, ◌≤◌, List, [], ◌∷◌, ◌++◌, ◌≡◌, refl, sym, arith, length, take, inl, inr, ◌⊎◌,
  Bool-cases, true, false, append-nil, if◌then◌else◌, ◌∙◌, ap, append_assoc,
}
use mckernel_ostest_arm.Base.Int.{ℤ, pos, is_zero}
use mckernel_ostest_arm.Base.Trace.{Env}
use mckernel_ostest_arm.Perf.{Attr, Call, setperfevent, get_config_num, perfevent_exec}
use mckernel_ostest_arm.Perf.Cases.{
  with_config, cpu_cycles, inst_retired, loop_000, test_000, numbered, run_each, attr_004,
  inner_004, outer_004, test_004,
}

-- The lists of attributes that a history handed to ihklib, oldest first.
abbrev pub requested : List Call → List (List Attr)
requested [] = []
requested (setperfevent os_num attr n ∷ h) = requested h ++ attr ∷ []
requested (c ∷ h) = requested h

-- One cycle hands its attributes over exactly once.
requested-perfevent_exec :
    (env : Env Call ℤ) (os_num : ℤ) (attr : List Attr) (n : ℕ) (h : List Call)
    → requested (perfevent_exec env os_num attr n h).1 ≡ requested h ++ attr ∷ []
unfolding perfevent_exec
requested-perfevent_exec env os_num attr n h = ground arith

abbrev pub singletons : List Attr → List (List Attr)
singletons [] = []
singletons (a ∷ attr) = (a ∷ []) ∷ singletons attr

-- What a loop over `attr` from the history `h` did: it measured the first `done` attributes, one
-- at a time and in order, and all of them unless its result is not 0.
abbrev pub Measured : List Call → List Attr → ℤ × List Call → Type 0
Measured h attr (ret, h') =
    (done : ℕ) × (done ≤ length attr)
    × (requested h' ≡ requested h ++ singletons (take done attr))
    × ((is_zero ret ≡ false) ⊎ (done ≡ length attr))

-- The loops of 002.c and 003.c measure the attributes in order, one at a time, up to the first
-- failure, and all of them if they return 0.
pub run_each-Measured :
    (env : Env Call ℤ) (os_num : ℤ) (attr : List Attr) (ret : ℤ) (h : List Call)
    → Measured h attr (run_each env os_num attr ret h)
unfolding run_each
run_each-Measured env os_num [] ret h = (0, omega arith, sym (append-nil _), inr refl)
run_each-Measured env os_num (a ∷ attr) ret h =
    let (r, h') = perfevent_exec env os_num (a ∷ []) 1 h in
    let once = requested-perfevent_exec env os_num (a ∷ []) 1 h in
    elim (Bool-cases (is_zero r)) [
      | inl ok ↦
          let (done, within, same, full) = run_each-Measured env os_num attr r h' in
          rw ok (
            suc done,
            omega arith,
            same
                ∙ ap (λ (l : List (List Attr)). l ++ singletons (take done attr)) once
                ∙ append_assoc (requested h) ((a ∷ []) ∷ []) (singletons (take done attr)),
            elim full [ inl bad ↦ inl bad | inr all ↦ inr (ap suc all) ],
          )
      | inr failed ↦ rw failed (1, omega arith, once, inl failed)
    ]

-- The attributes that the nested loops of 004.c measure: each of `attr` with each event number.
abbrev pub configured : Attr → List ℕ → List Attr
configured a [] = []
configured a (c ∷ config) = record a { config = c } ∷ configured a config

abbrev pub crossed : List Attr → List ℕ → List Attr
crossed [] config = []
crossed (a ∷ attr) config = configured a config ++ crossed attr config

module _ (env : Env Call ℤ) (os_num : ℤ) where
  run_each-append :
      (xs ys : List Attr) (ret : ℤ) (h : List Call)
      → is_zero ret ≡ true
      → run_each env os_num (xs ++ ys) ret h ≡ (
          let (r, h') = run_each env os_num xs ret h in
          if is_zero r then run_each env os_num ys r h' else (r, h'))
  unfolding run_each
  run_each-append [] ys ret h z = rw z
  run_each-append (a ∷ xs) ys ret h z =
      let (r, h') = perfevent_exec env os_num (a ∷ []) 1 h in
      elim (Bool-cases (is_zero r)) [
        | inl ok ↦ rw ok (run_each-append xs ys r h' ok)
        | inr failed ↦ rw (failed, failed)
      ]

  inner_004-eq-run_each :
      (a : Attr) (config : List ℕ) (ret : ℤ) (h : List Call)
      → inner_004 env os_num a config ret h ≡ run_each env os_num (configured a config) ret h
  unfolding inner_004 run_each
  inner_004-eq-run_each a [] ret h = refl
  inner_004-eq-run_each a (c ∷ config) ret h =
      let (r, h') = perfevent_exec env os_num (record a { config = c } ∷ []) 1 h in
      elim (Bool-cases (is_zero r)) [
        | inl ok ↦ rw ok (inner_004-eq-run_each a config r h')
        | inr failed ↦ rw failed
      ]

  -- Begun with the result 0, the nested loops of 004.c with their `goto out` are one loop over all
  -- combinations.
  pub outer_004-eq-run_each :
      (attr : List Attr) (config : List ℕ) (ret : ℤ) (h : List Call)
      → is_zero ret ≡ true
      → outer_004 env os_num attr config ret h ≡ run_each env os_num (crossed attr config) ret h
  unfolding outer_004 run_each
  outer_004-eq-run_each [] config ret h z = refl
  outer_004-eq-run_each (a ∷ attr) config ret h z =
      rw
        (
          run_each-append (configured a config) (crossed attr config) ret h z,
          ← inner_004-eq-run_each a config ret h,
        )
        (let (r, h') = inner_004 env os_num a config ret h in
          elim (Bool-cases (is_zero r)) [
            | inl ok ↦ rw ok (outer_004-eq-run_each attr config r h' ok)
            | inr failed ↦ rw failed
          ])

  -- Test case 4 measures the 30 combinations of exclusions and event numbers in the order of the
  -- loops, one at a time, up to the first failure, and all of them if it returns 0.
  pub test_004-Measured :
      (h : List Call)
      → Measured h (crossed attr_004 (cpu_cycles ∷ inst_retired ∷ [])) (test_004 env os_num h)
  unfolding test_004
  test_004-Measured h =
      rw (outer_004-eq-run_each attr_004 (cpu_cycles ∷ inst_retired ∷ []) (pos 0) h refl)
        (run_each-Measured env os_num (crossed attr_004 (cpu_cycles ∷ inst_retired ∷ [])) (pos 0) h)

loop_000-eq-run_each :
    (env : Env Call ℤ) (os_num : ℤ) (left i : ℕ) (ret : ℤ) (h : List Call)
    → loop_000 env os_num left i ret h ≡ run_each env os_num (numbered left i) ret h
unfolding loop_000 run_each numbered
loop_000-eq-run_each env os_num zero i ret h = refl
loop_000-eq-run_each env os_num (suc left) i ret h =
    let (r, h') = perfevent_exec env os_num (with_config i ∷ []) 1 h in
    elim (Bool-cases (is_zero r)) [
      | inl ok ↦ rw ok (loop_000-eq-run_each env os_num left (i + 1) r h')
      | inr failed ↦ rw failed
    ]

-- Test case 0 measures the events 0x00 to 0x38 in order, one at a time, up to the first failure,
-- and all of them if it returns 0.
pub test_000-Measured :
    (env : Env Call ℤ) (os_num : ℤ) (h : List Call)
    → Measured h (numbered get_config_num 0) (test_000 env os_num h)
unfolding test_000
test_000-Measured env os_num h =
    rw (loop_000-eq-run_each env os_num get_config_num 0 (pos 0) h)
      (run_each-Measured env os_num (numbered get_config_num 0) (pos 0) h)
