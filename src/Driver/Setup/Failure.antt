-- ===== src/Driver/Setup/Failure.antt =====
-- What loading the module returns when it fails.
use mckernel_ostest_arm.Base.{
  ℕ, ◌+◌, List, [], ◌∷◌, ◌≡◌, refl, Bool, true, false, arith, Bool-cases, inl, inr,
}
use mckernel_ostest_arm.Base.Int.{ℤ, pos, is_neg}
use mckernel_ostest_arm.Base.Trace.{Env}
use mckernel_ostest_arm.Driver.Calls.{
  Call, alloc_chrdev_region, class_create, unregister_chrdev_region, Reply, Dev,
}
use mckernel_ostest_arm.Driver.Suites.{init}
use mckernel_ostest_arm.Driver.Setup.{
  nr_devs, Driver, Round, create_dev, create_devs, cleanup, fail, setup,
}

-- The last call was a class_create that failed.
abbrev pub class_failed : Env Call Reply → List Call → Bool
class_failed env (class_create ts_name ∷ h) = is_neg (env h (class_create ts_name)).ret
class_failed env h = false

-- The last call gave the device numbers back.
abbrev pub torn_down : List Call → Bool
torn_down (unregister_chrdev_region from count ∷ h) = true
torn_down h = false

module _ (env : Env Call Reply) (page_size : ℕ) (format : ℕ → ℕ → List ℕ) where
  -- A round whose class_create fails leaves `res` as it was, and ends the loop.
  create_dev_res :
      (major i : ℕ) (r : Round) (h : List Call)
      → r.res ≡ pos 0
      → let (r', h') = create_dev env page_size format major i r h in
        (r'.going ≡ true → (r'.res ≡ pos 0) × (class_failed env h' ≡ false))
        × (class_failed env h' ≡ true → (r'.res ≡ pos 0) × (r'.going ≡ false))
  unfolding create_dev init
  create_dev_res major i r h e = ground arith

  create_devs_res :
      (major i : ℕ) (devs : List Dev) (majmin : List ℕ) (majmin_pos : ℕ) (res : ℤ) (h : List Call)
      → res ≡ pos 0
      → class_failed env h ≡ false
      → let (s, h') = create_devs env page_size format major i devs majmin majmin_pos res h in
        class_failed env h' ≡ true → (s.3 ≡ pos 0) × (s.4 ≡ false)
  unfolding create_devs
  create_devs_res major i [] majmin majmin_pos res h e n = λ f. cc
  create_devs_res major i (dev ∷ devs) majmin majmin_pos res h e n =
      let before : Round = record {
        dev = dev;
        majmin = majmin;
        majmin_pos = majmin_pos;
        res = res;
        going = true;
      } in
      let (r, h') = create_dev env page_size format major i before h in
      let (kept, last) = create_dev_res major i before h e in
      elim (Bool-cases r.going) [
        | inl going ↦
            let (zero_res, fine) = kept going in
            rw going
              (create_devs_res major (i + 1) devs r.majmin r.majmin_pos r.res h' zero_res fine)
        | inr stopped ↦ rw stopped (λ f. ((last f).0, refl))
      ]

  -- Unloading ends by giving the device numbers back.
  pub cleanup-torn_down : (s : Driver) (h : List Call) → torn_down (cleanup env s h).1 ≡ true
  unfolding cleanup
  cleanup-torn_down s h = refl

  -- When the kernel gives the module its device numbers and then class_create fails, for whichever
  -- device, the module's init function returns 0, so that the module counts as loaded, though its
  -- last call gave the device numbers back.
  pub setup_class_failed :
      (s : Driver) (h : List Call)
      → let region = alloc_chrdev_region nr_devs in
        (env h region).ret ≡ pos 0
        → class_failed env
            (create_devs env page_size format
              (env h region).major
              0
              s.devlist
              s.majmin
              0
              (env h region).ret
              (region ∷ h)).1
          ≡ true
        → let ((s', ret), h') = setup env page_size format s h in
          (ret ≡ pos 0) × (torn_down h' ≡ true)
  unfolding setup fail
  setup_class_failed s h e f =
      let region = alloc_chrdev_region nr_devs in
      let devs =
        create_devs_res (env h region).major 0 s.devlist s.majmin 0 (env h region).ret (region ∷ h)
          e refl f in
      let given : is_neg (env h region).ret ≡ false = rw e in
      rw (given, devs.1) (devs.0, cleanup-torn_down _ _)
