-- ===== src/Mempolicy/Run.antt =====
-- How the test cases of test_mck/src/mbind, set_mempolicy and get_mempolicy run: a statement, a sequence of
-- them up to the first assert that fails, and then what the TEARDOWN_FUNC gives back.
use mckernel_ostest_arm.Base.{
  ℕ, zero, suc, ◌+◌, ◌-◌, ◌%◌, ◌^◌, List, [], ◌∷◌, ◌++◌, map, Bool, true, false, not, Option, none,
  some, ◌==◌, ltb, get_or, set, if◌then◌else◌,
}
use mathlib.Core.Option
use mckernel_ostest_arm.Base.Int.{ℤ, pos, negsuc, eq_ℤ, is_zero, is_minus_one}
use mckernel_ostest_arm.Base.Trace.{Env, Proc, pure, call, ◌>>=◌, ◌>>◌}
use mckernel_ostest_arm.Numa.{Reply, create_node_mask, node_mask_check}
use mckernel_ostest_arm.Numa
use mckernel_ostest_arm.Mempolicy.{
  Addr, Answer, Case, Event, Expect, Mask, Message, Step, Stop, Vars, all_zero, assign, at,
  at_start, bind, check_error, create, create_other, failed, fails, fetch, fill_other, free,
  get_mempolicy, is_full, malloc_error, map_buf, mapped, max_node_error, mbind, mmap, mmap_error,
  mode_below, mode_error, mode_is, munmap, need_max_node, need_nodes, no_max_node, node_mask_error,
  not_failed, not_succeeded, null, numa, other, own, put, put_other, refused, refused_not,
  set_mempolicy, set_mode, store, succeeds, touch_buf, undefined, unmap_buf, word, word_is,
  wrong_errno,
}

abbrev pub tp_assert : Bool → Message → Option Stop
tp_assert ok m = if ok then none else some (failed m)

-- A pointer as an unsigned long.
abbrev pub to_word : ℤ → ℕ
to_word (pos n) = n
to_word (negsuc n) = 2 ^ 64 - 1 - n

abbrev pub is_none : {A : Type 0} → Option A → Bool
is_none none = true
is_none (some a) = false

abbrev pub words : Option (List ℕ) → List ℕ
words none = []
words (some mask) = mask

-- The asserts after a call.
abbrev pub check : Expect → Answer → Option Stop
check succeeds a = tp_assert (is_zero a.ret) not_succeeded
check fails a = tp_assert (is_minus_one a.ret) not_failed
check (refused e) a =
    if is_minus_one a.ret then tp_assert (a.errno == e) wrong_errno else some (failed not_failed)
check (refused_not e) a =
    if is_minus_one a.ret
    then tp_assert (not (a.errno == e)) wrong_errno
    else some (failed not_failed)

-- The loop over the words of a mask, from `left - 1` down.
unfoldable pub words_zero : List ℕ → (left : ℕ) → Bool
words_zero mask zero = true
words_zero mask (suc i) =
    let rest = words_zero mask i in if get_or mask i 0 == 0 then rest else false

-- The loop that looks for the node, with `left` numbers to try, from `i` on.
unfoldable pub id_found : (mode : ℤ) → (i left : ℕ) → Bool
id_found mode i zero = false
id_found mode i (suc left) =
    let rest = id_found mode (i + 1) left in if eq_ℤ mode (pos i) then true else rest

-- The loop that sets a bit for each node and one more, in a mask of `nr` words;
-- `none` is the undefined shift of an int by 31 bits or more.
unfoldable pub filled : (max_node nr : ℕ) → Option (List ℕ)
filled max_node zero = some []
filled max_node (suc zero) =
    if ltb (max_node % 64 + 1) 31 then some ((2 ^ (max_node % 64 + 1) - 1) ∷ []) else none
filled max_node (suc (suc left)) = elim (filled max_node (suc left)) [
  | none ↦ none
  | some rest ↦ some ((2 ^ 64 - 1) ∷ rest)
]

-- The words go where the other mask is.
abbrev pub fill : Vars → (words : Option (List ℕ)) → Option Stop × Vars
fill v none = (some undefined, v)
fill v (some mask) = (none, record v { other_mask = Option.map (λ _. mask) v.other_mask })

abbrev pub after_check : Option ℤ → Option Stop
after_check none = some undefined
after_check (some r) = tp_assert (is_zero r) check_error

abbrev pub pointed : Vars → Mask → Option (List ℕ)
pointed v null = none
pointed v own = v.node_mask
pointed v other = v.other_mask
pointed v (word w) = some (w ∷ [])

abbrev pub is_own : Mask → Bool
is_own own = true
is_own null = false
is_own other = false
is_own (word w) = false

abbrev pub address : Vars → Addr → ℕ
address v (at a) = a
address v mapped = to_word v.buf

-- The answers to the functions of numa.c; get_mempolicy gives the first word of the mask.
abbrev pub numa_env : Env Event Answer → List Event → Env Numa.Call Reply
numa_env env h calls c =
    let a = env (map numa calls ++ h) (numa c) in
    record { ret = a.ret; mode = a.mode; node_mask = get_or a.mask 0 0 }

module _ (env : Env Event Answer) where
  unfoldable pub create_mask : (max_node : ℕ) → Proc Event (Option (List ℕ) × ℕ)
  create_mask max_node h =
      let (made, calls) = create_node_mask (numa_env env h) max_node [] in
      (made, map numa calls ++ h)

  -- One statement: what ends the run, if something does, and the variables after it.
  unfoldable pub run_step : (max_node : ℕ) → Step → Vars → Proc Event (Option Stop × Vars)
  run_step max_node need_max_node v = pure (tp_assert (not (max_node == 0)) no_max_node, v)
  run_step max_node (need_nodes least) v =
      pure (tp_assert (not (ltb max_node least)) max_node_error, v)
  run_step max_node (create n) v = create_mask n >>= λ (mask, nr). pure (
    tp_assert (not (is_none mask)) malloc_error,
    record v { node_mask = mask; nr_node_mask = nr },
  )
  run_step max_node (create_other n) v = create_mask n >>= λ (mask, nr). pure (
    tp_assert (not (is_none mask)) malloc_error,
    record v { other_mask = mask; nr_node_mask = nr },
  )
  run_step max_node fill_other v = pure (fill v (filled max_node v.nr_node_mask))
  run_step max_node (put value) v =
      pure (none, record v { node_mask = Option.map (λ mask. set mask 0 value) v.node_mask })
  run_step max_node (put_other value) v =
      pure (none, record v { other_mask = Option.map (λ mask. set mask 0 value) v.other_mask })
  run_step max_node set_mode v = pure (none, record v { mode = negsuc 0 })
  run_step max_node (bind a len mode mask maxnode flags expect) v =
      call env (mbind (address v a) len mode (pointed v mask) maxnode flags) >>= λ r.
      pure (check expect r, v)
  run_step max_node (assign mode mask maxnode expect) v =
      call env (set_mempolicy mode (pointed v mask) maxnode) >>= λ r. pure (check expect r, v)
  run_step max_node (fetch wants_mode mask maxnode a flags expect) v =
      call env (
        get_mempolicy (if wants_mode then some v.mode else none) (pointed v mask) maxnode
          (address v a) flags)
      >>= λ r. pure (
        check expect r,
        record v {
          mode = if wants_mode then r.mode else v.mode;
          node_mask = if is_own mask then Option.map (λ _. r.mask) v.node_mask else v.node_mask;
        },
      )
  run_step max_node (mode_is m) v = pure (tp_assert (eq_ℤ v.mode m) mode_error, v)
  run_step max_node (word_is w) v =
      pure (tp_assert (get_or (words v.node_mask) 0 0 == w) node_mask_error, v)
  run_step max_node all_zero v =
      pure (tp_assert (words_zero (words v.node_mask) v.nr_node_mask) node_mask_error, v)
  run_step max_node (is_full num_bits) v =
      pure (after_check (node_mask_check (words v.node_mask) v.nr_node_mask num_bits), v)
  run_step max_node (mode_below n) v = pure (tp_assert (id_found v.mode 0 n) mode_error, v)
  run_step max_node (map_buf len checked) v = call env (mmap len) >>= λ r. pure (
    if checked then tp_assert (not (is_minus_one r.ret)) mmap_error else none,
    record v { buf = r.ret },
  )
  run_step max_node touch_buf v = call env (store (to_word v.buf)) >> pure (none, v)
  run_step max_node (unmap_buf len) v =
      call env (munmap (to_word v.buf) len) >> pure (none, record v { buf = negsuc 0 })

  -- What follows a statement, unless that has ended the run.
  unfoldable pub after_step :
      (next : Vars → Proc Event (Option Stop × Vars))
      → Option Stop
      → Vars
      → Proc Event (Option Stop × Vars)
  after_step next none v = next v
  after_step next (some x) v = pure (some x, v)

  unfoldable pub run_steps : (max_node : ℕ) → List Step → Vars → Proc Event (Option Stop × Vars)
  run_steps max_node [] v = pure (none, v)
  run_steps max_node (s ∷ steps) v =
      run_step max_node s v >>= λ (stop, v1). after_step (run_steps max_node steps) stop v1

module _ (env : Env Event Answer) where
  unfoldable pub destroy : Bool → Option (List ℕ) → Proc Event (Unit {0})
  destroy frees mask = if frees then (call env (free (not (is_none mask))) >> pure tt) else pure tt

  unfoldable pub unmap : Option ℕ → Vars → Proc Event (Unit {0})
  unmap none v = pure tt
  unmap (some len) v =
      if is_minus_one v.buf then pure tt else (call env (munmap (to_word v.buf) len) >> pure tt)

  unfoldable pub run_test : (max_node : ℕ) → Case → Proc Event (Option Stop)
  unfolding destroy unmap
  run_test max_node c = do
    (stop, v) ← run_steps env max_node c.steps at_start
    destroy c.frees_own v.node_mask
    destroy c.frees_other v.other_mask
    unmap c.unmaps v
    pure stop
