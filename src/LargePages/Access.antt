-- ===== src/LargePages/Access.antt =====
-- Which bytes the tests touch, and what they leave mapped.
use mckernel_ostest_arm.Base.{
  ℕ, zero, suc, ◌+◌, ◌%◌, ◌^◌, ◌<◌, ◌≤◌, ◌≡◌, ◌⊎◌, inl, inr, refl, ◌∙◌, List, [], ◌∷◌, Bool, true,
  false, ◌&&◌, none, some, arith, ltb, leb, get_elem?, if◌then◌else◌, Bool-cases,
}
use mckernel_ostest_arm.Base.Int.{ℤ, pos, negsuc, is_minus_one, pos_part}
use mckernel_ostest_arm.Base.Trace.{Env}
use mckernel_ostest_arm.LargePages.{
  Mode, test_anon_null, test_anon_read, test_anon_write, Arg, Call, mmap, load, store, munmap,
  access, rounds, test_anon, tests, run_test, select, main,
}

-- The mappings that a history gave, and those that it ended.
abbrev pub mapped : Env Call ℤ → List Call → ℕ
mapped env [] = 0
mapped env (mmap len prot flags ∷ h) =
    mapped env h + (if is_minus_one (env h (mmap len prot flags)) then 0 else 1)
mapped env (c ∷ h) = mapped env h

abbrev pub unmapped : List Call → ℕ
unmapped [] = 0
unmapped (munmap addr len ∷ h) = unmapped h + 1
unmapped (c ∷ h) = unmapped h

-- The last mapping of a history holds the address, and has not been ended.
abbrev pub holds : Env Call ℤ → ℕ → List Call → Bool
holds env a [] = false
holds env a (mmap len prot flags ∷ h) =
    let base = pos_part (env h (mmap len prot flags)) in leb base a && ltb a (base + len)
holds env a (munmap addr len ∷ h) = false
holds env a (load b ∷ h) = holds env a h
holds env a (store b v ∷ h) = holds env a h

-- The accesses outside the last mapping.
abbrev pub stray : Env Call ℤ → List Call → ℕ
stray env [] = 0
stray env (load a ∷ h) = stray env h + (if holds env a h then 0 else 1)
stray env (store a v ∷ h) = stray env h + (if holds env a h then 0 else 1)
stray env (c ∷ h) = stray env h

-- What mmap documents: it fails, or the range lies inside the address space.
abbrev pub Fits : Env Call ℤ → Type 0
Fits env =
    (h : List Call) (len prot flags : ℕ)
    → let r = env h (mmap len prot flags) in
      (r ≡ negsuc 0) ⊎ ((a : ℕ) × (r ≡ pos a) × (a + len < 2 ^ 64))

module _ (env : Env Call ℤ) (fits : Fits env) where
  round_lem :
      (mode : Mode) (a len prot flags off : ℕ) (h : List Call)
      → env h (mmap len prot flags) ≡ pos a
      → a + len < 2 ^ 64
      → off < len
      → let h1 = mmap len prot flags ∷ h in
        let h' = (access env mode a len ((a + off) % 2 ^ 64) h1).1 in
        (mapped env h' ≡ mapped env h + 1)
        × (unmapped h' ≡ unmapped h + 1)
        × (stray env h' ≡ stray env h)
  unfolding access
  round_lem test_anon_null a len prot flags off h e room lt = (rw e refl, refl, refl)
  round_lem test_anon_read a len prot flags off h e room lt = (rw e refl, refl, rw e (ground arith))
  round_lem test_anon_write a len prot flags off h e room lt =
      (rw e refl, refl, rw e (ground arith))

  rounds_lem :
      (left : ℕ) (args : Arg) (h : List Call)
      → args.rw_off < args.len
      → let h' = (rounds env left args h).1 in
        (mapped env h' + unmapped h ≡ unmapped h' + mapped env h) × (stray env h' ≡ stray env h)
  unfolding rounds
  rounds_lem zero args h lt = (omega arith, refl)
  rounds_lem (suc left) args h lt =
      let h1 = mmap args.len args.prot args.flag ∷ h in
      elim (fits h args.len args.prot args.flag) [
        | inl failed ↦ rw failed (rw failed (omega arith), refl)
        | inr (a, e, room) ↦
            let (goes, h2) = access env args.mode a args.len ((a + args.rw_off) % 2 ^ 64) h1 in
            let (more, ended, same) =
              round_lem args.mode a args.len args.prot args.flag args.rw_off h e room lt in
            rw e (elim (Bool-cases goes) [
              | inr stops ↦ rw stops (omega arith, same)
              | inl on ↦
                  let (balanced, inside) = rounds_lem left args h2 lt in
                  rw on (omega arith, inside ∙ same)
            ])
      ]

abbrev pub is_null : Mode → Bool
is_null test_anon_null = true
is_null test_anon_read = false
is_null test_anon_write = false

-- Every test has a mode, and touches bytes inside its range.
tests_fine :
    (i : ℕ)
    → ((get_elem? tests i ≡ none) × (6 ≤ i))
      ⊎ ((args : Arg) × (get_elem? tests i ≡ some args)
          × (args.rw_off < args.len)
          × (is_null args.mode ≡ false))
tests_fine zero = inr (_, refl, omega arith, refl)
tests_fine (suc zero) = inr (_, refl, omega arith, refl)
tests_fine (suc (suc zero)) = inr (_, refl, omega arith, refl)
tests_fine (suc (suc (suc zero))) = inr (_, refl, omega arith, refl)
tests_fine (suc (suc (suc (suc zero)))) = inr (_, refl, omega arith, refl)
tests_fine (suc (suc (suc (suc (suc zero))))) = inr (_, refl, omega arith, refl)
tests_fine (suc (suc (suc (suc (suc (suc i)))))) = inl (refl, omega arith)

module _ (env : Env Call ℤ) (fits : Fits env) {A : Type 0} (atoi : A → ℤ) where
  select_lem :
      (n : ℤ) (h : List Call)
      → let h' = (select env n h).1 in
        (mapped env h' + unmapped h ≡ unmapped h' + mapped env h) × (stray env h' ≡ stray env h)
  unfolding select run_test test_anon
  select_lem (negsuc i) h = (omega arith, refl)
  select_lem (pos i) h = elim (tests_fine i) [
    | inl (none_such, big) ↦ rw none_such (omega arith, refl)
    | inr (args, found, lt, mode) ↦ rw found (rounds_lem env fits args.repeat args h lt)
  ]

  -- If mmap gives ranges inside the address space, then whatever the argument is and the kernel
  -- answers, the program unmaps as many ranges as it mapped, and touches no byte outside the range
  -- that it mapped last.
  pub main_contained :
      (argv : List A) (h : List Call)
      → let h' = (main env atoi argv h).1 in
        (mapped env h' + unmapped h ≡ unmapped h' + mapped env h) × (stray env h' ≡ stray env h)
  unfolding main
  main_contained [] h = (omega arith, refl)
  main_contained (name ∷ []) h = (omega arith, refl)
  main_contained (name ∷ i ∷ argv) h = select_lem (atoi i) h

module _ (env : Env Call ℤ)
    (succeeds : (h : List Call) (c : Call) → is_minus_one (env h c) ≡ false) where
  access_goes :
      (mode : Mode) (a len print : ℕ) (h : List Call)
      → is_null mode ≡ false
      → ((access env mode a len print h).0 ≡ true)
        × (mapped env (access env mode a len print h).1 ≡ mapped env h)
  unfolding access
  access_goes test_anon_null a len print h e = cc
  access_goes test_anon_read a len print h e = (rw succeeds refl, refl)
  access_goes test_anon_write a len print h e = (rw succeeds refl, refl)

  rounds_complete :
      (left : ℕ) (args : Arg) (h : List Call)
      → is_null args.mode ≡ false
      → let (ret, h') = rounds env left args h in
        (ret ≡ pos 0) × (mapped env h' ≡ mapped env h + left)
  unfolding rounds
  rounds_complete zero args h e = (refl, omega arith)
  rounds_complete (suc left) args h e =
      let map_call = mmap args.len args.prot args.flag in
      let addr = env h map_call in
      let print = (pos_part addr + args.rw_off) % 2 ^ 64 in
      let (goes, same) = access_goes args.mode (pos_part addr) args.len print (map_call ∷ h) e in
      let h2 = (access env args.mode (pos_part addr) args.len print (map_call ∷ h)).1 in
      let (done, more) = rounds_complete left args h2 e in
      let gives : is_minus_one addr ≡ false = succeeds h map_call in
      let one : mapped env (map_call ∷ h) ≡ mapped env h + 1 = rw gives refl in
      rw (gives, goes) (done, omega arith)

  -- If no call fails, then the program, given the number of one of its six tests, returns 0 after
  -- mapping a range once for each round of the test.
  pub main_complete :
      {A : Type 0} (atoi : A → ℤ) (name arg : A) (i : ℕ) (h : List Call)
      → atoi arg ≡ pos i
      → i < 6
      → let (ret, h') = main env atoi (name ∷ arg ∷ []) h in
        (ret ≡ pos 0)
        × ((args : Arg) × (get_elem? tests i ≡ some args)
            × (mapped env h' ≡ mapped env h + args.repeat))
  unfolding main select run_test test_anon
  main_complete atoi name arg i h e lt = elim (tests_fine i) [
    | inl (none_such, big) ↦ absurd (omega arith)
    | inr (args, found, within, mode) ↦
        let (done, more) = rounds_complete args.repeat args h mode in
        rw (e, found) (done, (args, refl, more))
  ]
