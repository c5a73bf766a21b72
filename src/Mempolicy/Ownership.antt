-- ===== src/Mempolicy/Ownership.antt =====
-- The masks that the test cases of test_mck/src/mbind, set_mempolicy and get_mempolicy allocate and free.
use mckernel_ostest_arm.Base.{
  ℕ, ◌+◌, ◌≤◌, List, [], ◌∷◌, Option, none, some, ◌≡◌, ◌⊎◌, inl, inr, refl, Bool, true, false, ◌||◌,
  arith, Bool-cases, if◌then◌else◌,
}
use mathlib.Core.Option
use mckernel_ostest_arm.Base.Int.{is_zero}
use mckernel_ostest_arm.Base.Trace.{Env, Proc, total_gain, total_loss}
use mckernel_ostest_arm.Numa
use mckernel_ostest_arm.Numa.{create_node_mask, node_mask_check}
use mckernel_ostest_arm.Mempolicy.{
  Step, need_max_node, set_mode, fill_other, all_zero, touch_buf, need_nodes, create, create_other,
  put, put_other, bind, assign, fetch, mode_is, word_is, is_full, mode_below, map_buf, unmap_buf,
  Event, numa, free, Answer, Vars, Stop, Case, at_start,
}
use mckernel_ostest_arm.Mempolicy.Run.{
  is_own, filled, fill, create_mask, run_step, after_step, run_steps, destroy, unmap, run_test,
  words,
}

-- A mask that malloc gives, and one that is given back.
abbrev pub made : Event → Answer → ℕ
made (numa (Numa.malloc size)) a = if is_zero a.ret then 0 else 1
made e a = 0

abbrev pub freed : Event → ℕ
freed (free given) = if given then 1 else 0
freed e = 0

abbrev count : Option (List ℕ) → ℕ
count none = 0
count (some mask) = 1

abbrev creates_own : Step → Bool
creates_own (create n) = true
creates_own s = false

abbrev creates_other : Step → Bool
creates_other (create_other n) = true
creates_other s = false

-- Each mask is created once at most, and then the teardown frees it.
abbrev pub Owns : (c : Case) → (own_made other_made : Bool) → List Step → Type 0
Owns c o p [] = 0 ≤ 0
Owns c o p (s ∷ steps) =
    ((creates_own s ≡ false) ⊎ ((o ≡ false) × (c.frees_own ≡ true)))
    × ((creates_other s ≡ false) ⊎ ((p ≡ false) × (c.frees_other ≡ true)))
    × Owns c (o || creates_own s) (p || creates_other s) steps

module _ (env : Env Event Answer) (max_node : ℕ) where
  -- What the variables hold is what has been made and not been freed.
  abbrev IsHeld : Vars → List Event → Type 0
  IsHeld v h = total_gain made env h ≡ total_loss freed h + count v.node_mask + count v.other_mask

  create_mask-count :
      (n : ℕ) (h : List Event)
      → let ((mask, nr), h') = create_mask env n h in
        (total_gain made env h' ≡ total_gain made env h + count mask)
        × (total_loss freed h' ≡ total_loss freed h)
  unfolding create_mask create_node_mask
  create_mask-count n h = ground arith

  count-map :
      (f : List ℕ → List ℕ) (mask : Option (List ℕ)) → count (Option.map f mask) ≡ count mask
  count-map f none = refl
  count-map f (some words) = refl

  fill-counts :
      (v : Vars) (made : Option (List ℕ))
      → let (stop, v') = fill v made in
        (count v'.node_mask ≡ count v.node_mask) × (count v'.other_mask ≡ count v.other_mask)
  fill-counts v none = (refl, refl)
  fill-counts v (some mask) = (refl, count-map (λ _. mask) v.other_mask)

  run_step-counts :
      (s : Step) (v : Vars) (h : List Event)
      → creates_own s ≡ false
      → creates_other s ≡ false
      → let ((stop, v'), h') = run_step env max_node s v h in
        (total_gain made env h' ≡ total_gain made env h)
        × (total_loss freed h' ≡ total_loss freed h)
        × (count v'.node_mask ≡ count v.node_mask)
        × (count v'.other_mask ≡ count v.other_mask)
  unfolding run_step
  run_step-counts need_max_node v h e f = ground arith
  run_step-counts set_mode v h e f = ground arith
  run_step-counts fill_other v h e f =
      let (a, b) = fill-counts v (filled max_node v.nr_node_mask) in (refl, refl, a, b)
  run_step-counts all_zero v h e f = ground arith
  run_step-counts touch_buf v h e f = ground arith
  run_step-counts (need_nodes least) v h e f = ground arith
  run_step-counts (create n) v h e f = cc e
  run_step-counts (create_other n) v h e f = cc f
  run_step-counts (put value) v h e f = (refl, refl, count-map _ v.node_mask, refl)
  run_step-counts (put_other value) v h e f = (refl, refl, refl, count-map _ v.other_mask)
  run_step-counts (bind a len mode mask maxnode flags expect) v h e f = ground arith
  run_step-counts (assign mode mask maxnode expect) v h e f = ground arith
  run_step-counts (fetch wants_mode mask maxnode a flags expect) v h e f =
      elim (Bool-cases (is_own mask)) [
        | inl writes ↦ rw writes (ground arith, ground arith, count-map _ v.node_mask, refl)
        | inr keeps ↦ rw keeps (ground arith, ground arith, refl, refl)
      ]
  run_step-counts (mode_is m) v h e f = ground arith
  run_step-counts (word_is w) v h e f = ground arith
  run_step-counts (is_full num_bits) v h e f = (refl, refl, refl, refl)
  run_step-counts (mode_below n) v h e f = ground arith
  run_step-counts (map_buf len checked) v h e f = ground arith
  run_step-counts (unmap_buf len) v h e f = ground arith

  -- What the variables hold is what has been made and not been freed. A mask is there only if it has
  -- been created, and if the teardown frees it.
  abbrev Kept : Case → (own_made other_made : Bool) → Vars → List Event → Type 0
  Kept c o p v h =
      (total_gain made env h ≡ total_loss freed h + count v.node_mask + count v.other_mask)
      × ((o ≡ true) ⊎ (count v.node_mask ≡ 0))
      × ((p ≡ true) ⊎ (count v.other_mask ≡ 0))
      × ((c.frees_own ≡ true) ⊎ (count v.node_mask ≡ 0))
      × ((c.frees_other ≡ true) ⊎ (count v.other_mask ≡ 0))

  run_step-Kept :
      (c : Case) (o p : Bool) (s : Step) (v : Vars) (h : List Event)
      → (creates_own s ≡ false) ⊎ ((o ≡ false) × (c.frees_own ≡ true))
      → (creates_other s ≡ false) ⊎ ((p ≡ false) × (c.frees_other ≡ true))
      → Kept c o p v h
      → let ((stop, v'), h') = run_step env max_node s v h in
        Kept c (o || creates_own s) (p || creates_other s) v' h'
  unfolding run_step
  run_step-Kept c o p (create n) v h once_own once_other kept =
      let (gain, loss) = create_mask-count n h in ground arith
  run_step-Kept c o p (create_other n) v h once_own once_other kept =
      let (gain, loss) = create_mask-count n h in ground arith
  run_step-Kept c o p s v h once_own once_other kept =
      let (gain, loss, own, other) = run_step-counts s v h refl refl in
      let o_same : (o || false) ≡ o = ground arith in
      let p_same : (p || false) ≡ p = ground arith in
      rw (gain, loss, own, other, o_same, p_same) kept

  after_step-Kept :
      (P : Vars → List Event → Type 0) (next : Vars → Proc Event (Option Stop × Vars))
      (stop : Option Stop) (v : Vars) (h : List Event)
      → P v h
      → (let ((stop', v'), h') = next v h in P v' h')
      → let ((stop', v'), h') = after_step env next stop v h in P v' h'
  unfolding after_step
  after_step-Kept P next none v h here later = later
  after_step-Kept P next (some x) v h here later = here

  -- The flags of the masks that have been created are some flags.
  abbrev Tracked : Case → Vars → List Event → Type 0
  Tracked c v h = (o : Bool) × (p : Bool) × Kept c o p v h

  run_steps-Tracked :
      (c : Case) (o p : Bool) (steps : List Step) (v : Vars) (h : List Event)
      → Owns c o p steps
      → Kept c o p v h
      → let ((stop, v'), h') = run_steps env max_node steps v h in Tracked c v' h'
  unfolding run_steps
  run_steps-Tracked c o p [] v h owns kept = (o, p, kept)
  run_steps-Tracked c o p (s ∷ steps) v h (own, other, owns) kept =
      let ((stop, v1), h1) = run_step env max_node s v h in
      let after = run_step-Kept c o p s v h own other kept in
      let rest =
        run_steps-Tracked c (o || creates_own s) (p || creates_other s) steps v1 h1 owns after in
      after_step-Kept (Tracked c) (run_steps env max_node steps) stop v1 h1
        (o || creates_own s, p || creates_other s, after) rest

  destroy-counts :
      (frees : Bool) (mask : Option (List ℕ)) (h : List Event)
      → let (done, h') = destroy env frees mask h in
        (total_gain made env h' ≡ total_gain made env h)
        × (total_loss freed h' ≡ total_loss freed h + (if frees then count mask else 0))
  unfolding destroy
  destroy-counts frees none h = ground arith
  destroy-counts frees (some words) h = ground arith

  unmap-counts :
      (len : Option ℕ) (v : Vars) (h : List Event)
      → let (done, h') = unmap env len v h in
        (total_gain made env h' ≡ total_gain made env h)
        × (total_loss freed h' ≡ total_loss freed h)
  unfolding unmap
  unmap-counts none v h = (refl, refl)
  unmap-counts (some len) v h = ground arith

  pub run_test_balanced :
      (c : Case)
      → Owns c false false c.steps
      → let (stop, h) = run_test env max_node c [] in total_gain made env h ≡ total_loss freed h
  unfolding run_test
  run_test_balanced c owns =
      let ((stop, v), h) = run_steps env max_node c.steps at_start [] in
      let h1 = (destroy env c.frees_own v.node_mask h).1 in
      let h2 = (destroy env c.frees_other v.other_mask h1).1 in
      let (o, p, kept) = run_steps-Tracked c false false c.steps at_start [] owns (ground arith) in
      let (held, own, other, frees_own, frees_other) = kept in
      let (gain1, loss1) = destroy-counts c.frees_own v.node_mask h in
      let (gain2, loss2) = destroy-counts c.frees_other v.other_mask h1 in
      let (gain3, loss3) = unmap-counts c.unmaps v h2 in ground arith
