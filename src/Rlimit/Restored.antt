-- ===== src/Rlimit/Restored.antt =====
-- What the test cases of test_mck/src/setrlimit leave behind.
use mckernel_ostest_arm.Base.{
  ℕ, arith, ◌≡◌, ◌<◌, ◌≤◌, ◌⊎◌, inl, inr, ◌-◌, ◌^◌, List, [], ◌∷◌, none, some, ltb, if◌then◌else◌,
}
use mckernel_ostest_arm.Base.Trace.{Env}
use mckernel_ostest_arm.Rlimit.{
  Resource, Rlimit, Event, Answer, getrlimit, setrlimit, setrlimit_failed, max_not_below_cur,
  rlimit_sigpending,
}
use mckernel_ostest_arm.Rlimit.Kernel.{index-injective, Limits, limits, update, index, Agrees}
use mckernel_ostest_arm.Rlimit.Set.{
  Case, restore, compare, after_set, set_and_restore, run_set, after_refused, set_above, case_015,
  with_cur,
}

module _ (env : Env Event Answer) (start : Limits)
    (agrees : (h : List Event) (e : Event) → Agrees (limits start h) e (env h e)) where
  restore-none :
      (r : Resource) (org : Rlimit) (h : List Event)
      → org.rlim_cur ≤ org.rlim_max
      → restore env r org h ≡ (none, setrlimit r org ∷ h)
  unfolding restore
  restore-none r org h fits = let a = agrees h (setrlimit r org) in ground arith

  compare-restore :
      (r : Resource) (org set_rlim : Rlimit) (h : List Event)
      → index r < 15
      → limits start h r ≡ set_rlim
      → compare env r org set_rlim (env h (getrlimit r)) (getrlimit r ∷ h)
        ≡ restore env r org (getrlimit r ∷ h)
  unfolding compare
  compare-restore r org set_rlim h known same = let a = agrees h (getrlimit r) in ground arith

  -- The limit does not go above the greatest one: it is set, shown and put back.
  run_set-set :
      (c : Case)
      → index c.resource < 15
      → (start c.resource).rlim_cur ≤ (start c.resource).rlim_max
      → c.rlim_cur ≤ (start c.resource).rlim_max
      → let r = c.resource in
        let org = start r in
        run_set env c [] ≡ (
          none,
          setrlimit r org ∷ getrlimit r ∷ setrlimit r (with_cur c.rlim_cur org) ∷ getrlimit r ∷ [],
        )
  unfolding run_set set_and_restore after_set
  run_set-set c known fits below =
      let r = c.resource in
      let org = start r in
      let first = agrees [] (getrlimit r) in
      let done = agrees (getrlimit r ∷ []) (setrlimit r (with_cur c.rlim_cur org)) in
      let shown =
        compare-restore r org (with_cur c.rlim_cur org)
          (setrlimit r (with_cur c.rlim_cur org) ∷ getrlimit r ∷ []) known (ground arith) in
      let back =
        restore-none r org (getrlimit r ∷ setrlimit r (with_cur c.rlim_cur org) ∷ getrlimit r ∷ [])
          fits in
      ground arith

  -- It does: the call is refused.
  run_set-refused :
      (c : Case)
      → index c.resource < 15
      → (start c.resource).rlim_max < c.rlim_cur
      → let r = c.resource in
        run_set env c []
        ≡ (some setrlimit_failed, setrlimit r (with_cur c.rlim_cur (start r)) ∷ getrlimit r ∷ [])
  unfolding run_set set_and_restore after_set
  run_set-refused c known above =
      let r = c.resource in
      let first = agrees [] (getrlimit r) in
      let done = agrees (getrlimit r ∷ []) (setrlimit r (with_cur c.rlim_cur (start r))) in
      ground arith

lt_or_le : (a b : ℕ) → (a < b) ⊎ (b ≤ a)
lt_or_le a b = ground arith

-- A limit set, and then set to what it was.
update-update :
    (r s : Resource) (new : Rlimit) (l : Limits) → update r (l r) (update r new l) s ≡ l s
update-update r s new l = let same = index-injective r s in ground arith

module _ (env : Env Event Answer) (start : Limits)
    (agrees : (h : List Event) (e : Event) → Agrees (limits start h) e (env h e)) (c : Case)
    (known : index c.resource < 15)
    (fits : (start c.resource).rlim_cur ≤ (start c.resource).rlim_max) (r : Resource) where
  -- With answers that follow the manual page, a process that may raise its limits, and an original limit
  -- that is not above its own greatest one, a test case passes if its limit is not above the original
  -- greatest limit and fails with the message of setrlimit if it is; either way all limits afterwards are
  -- the original ones.
  pub run_set-restores :
      let (m, h) = run_set env c [] in
      (m ≡ (if ltb (start c.resource).rlim_max c.rlim_cur then some setrlimit_failed else none))
      × (limits start h r ≡ start r)
  run_set-restores = elim (lt_or_le (start c.resource).rlim_max c.rlim_cur) [
    | inl above ↦ rw (run_set-refused env start agrees c known above) (ground arith)
    | inr below ↦
        let back = update-update c.resource r (with_cur c.rlim_cur (start c.resource)) start in
        rw (run_set-set env start agrees c known fits below) (ground arith)
  ]

module _ (env : Env Event Answer) (start : Limits)
    (agrees : (h : List Event) (e : Event) → Agrees (limits start h) e (env h e))
    (r : Resource) where
  -- With answers that follow the manual page, 015.c passes if the greatest number of pending signals is below 2 ^ 64 - 1 and
  -- otherwise fails with the message of its assert on that; all limits stay the original ones.
  pub case_015-restores :
      let (m, h) = case_015 env [] in
      (m ≡ (
        if ltb (start rlimit_sigpending).rlim_max (2 ^ 64 - 1)
        then none
        else some max_not_below_cur))
      × (limits start h r ≡ start r)
  unfolding case_015 set_above after_refused
  case_015-restores =
      let first = agrees [] (getrlimit rlimit_sigpending) in
      let second =
        agrees (getrlimit rlimit_sigpending ∷ [])
          (setrlimit rlimit_sigpending (with_cur (2 ^ 64 - 1) (start rlimit_sigpending))) in
      ground arith
