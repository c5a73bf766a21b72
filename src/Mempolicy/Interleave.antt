-- ===== src/Mempolicy/Interleave.antt =====
-- test_mck/src/get_mempolicy/018.c, which asks three times for the node of the next allocation and each
-- time uses up a large page in between.
pub mod Released
use mckernel_ostest_arm.Base.{
  ℕ, zero, suc, ◌+◌, ◌-◌, ◌*◌, ◌%◌, ◌^◌, List, [], ◌∷◌, ◌++◌, map, Bool, true, false, not, Option,
  none, some, if◌then◌else◌,
}
use mckernel_ostest_arm.Base.Int.{ℤ, pos, negsuc, eq_ℤ, is_zero, is_minus_one}
use mckernel_ostest_arm.Base.Trace.{Env, Proc, pure, call, ◌>>=◌, ◌>>◌}
use mckernel_ostest_arm.Harness.Number.{align_up}
use mckernel_ostest_arm.Mempolicy.{
  Answer, Step, Stop, Vars, assign, at, at_start, create, failed, fetch, free, get_mempolicy,
  mmap_error, mode_error, mode_is, need_max_node, need_nodes, not_succeeded, null, own, set_mode,
  store, succeeds, word, word_is,
}
use mckernel_ostest_arm.Mempolicy
use mckernel_ostest_arm.Mempolicy.Constants.{mpol_interleave, mpol_f_node}
use mckernel_ostest_arm.Mempolicy.Run.{run_steps, to_word, is_none}

-- The calls: those of the other test cases, mmap of a range for no access, mmap with MAP_FIXED, and munmap.
pub data Event : Type 0 where
  policy : Mempolicy.Event → Event
  mmap_reserve : (len : ℕ) → Event
  mmap_fixed : (addr len : ℕ) → Event
  munmap : (addr len : ℕ) → Event

-- What ends the run, if something does, and the variables that outlive a round of the loop. The static
-- `addr` is not among them: the local variable of that name hides it, and it stays MAP_FAILED.
pub record Round : Type 0 where
  pub stop : Option Stop
  pub old_mode : ℤ
  pub reserve : ℤ
  pub buf : ℤ

abbrev pub difference : (a b : ℕ) → ℕ
difference a b = (a + 2 ^ 64 - b) % 2 ^ 64

abbrev pub policy_env : Env Event Answer → List Event → Env Mempolicy.Event Answer
policy_env env h calls e = env (map policy calls ++ h) (policy e)

-- The statements before the loop.
abbrev pub first_steps : (max_node : ℕ) → List Step
first_steps max_node =
    need_max_node
    ∷ need_nodes 2
    ∷ create max_node
    ∷ assign (pos mpol_interleave) (word 3) 64 succeeds
    ∷ set_mode
    ∷ fetch true own max_node (at 0) 0 succeeds
    ∷ mode_is (pos mpol_interleave)
    ∷ word_is 3
    ∷ set_mode
    ∷ fetch true null 0 (at 0) mpol_f_node succeeds
    ∷ []

abbrev pub max_count : ℕ
max_count = 3

module _ (env : Env Event Answer) (large_page_size : ℕ) where
  unfoldable pub first : (max_node : ℕ) → Proc Event (Option Stop × Vars)
  first max_node h =
      let (result, calls) =
        run_steps (policy_env env h) max_node (first_steps max_node) at_start [] in
      (result, map policy calls ++ h)

  -- munmap of what lies before `buf`, of `buf`, and of the rest.
  unfoldable pub release : (reserve buf : ℕ) → Proc Event (Unit {0})
  release reserve buf = do
    call env (munmap reserve (difference buf reserve))
    call env (munmap buf large_page_size)
    call env (
        munmap ((buf + large_page_size) % 2 ^ 64)
          (difference (reserve + large_page_size * 2) ((buf + large_page_size) % 2 ^ 64)))
    pure tt

  unfoldable pub after_fetch : (old_mode reserve buf : ℤ) → Answer → Proc Event Round
  after_fetch old_mode reserve buf a =
      if is_zero a.ret
      then (if eq_ℤ a.mode old_mode
          then pure (record {
            stop = some (failed mode_error);
            old_mode = old_mode;
            reserve = reserve;
            buf = buf;
          })
          else (release (to_word reserve) (to_word buf)
              >> pure
                  (record { stop = none; old_mode = a.mode; reserve = negsuc 0; buf = negsuc 0 })))
      else pure (record {
        stop = some (failed not_succeeded);
        old_mode = old_mode;
        reserve = reserve;
        buf = buf;
      })

  unfoldable pub after_fixed : (old_mode reserve : ℤ) → Answer → Proc Event Round
  after_fixed old_mode reserve b =
      if is_minus_one b.ret
      then pure (record {
        stop = some (failed mmap_error);
        old_mode = old_mode;
        reserve = reserve;
        buf = b.ret;
      })
      else (call env (policy (store (to_word b.ret)))
          >> (call env (policy (get_mempolicy (some (negsuc 0)) none 0 0 mpol_f_node))
              >>= after_fetch old_mode reserve b.ret))

  unfoldable pub after_reserve : (old_mode : ℤ) → Answer → Proc Event Round
  after_reserve old_mode r =
      if is_minus_one r.ret
      then pure (record {
        stop = some (failed mmap_error);
        old_mode = old_mode;
        reserve = r.ret;
        buf = negsuc 0;
      })
      else (call env (mmap_fixed (align_up (to_word r.ret) large_page_size) large_page_size)
          >>= after_fixed old_mode r.ret)

  unfoldable pub one_round : (old_mode : ℤ) → Proc Event Round
  one_round old_mode = call env (mmap_reserve (large_page_size * 2)) >>= after_reserve old_mode

  unfoldable pub after_round :
      (next : ℤ → Proc Event Round) → Option Stop → Round → Proc Event Round
  after_round next none r = next r.old_mode
  after_round next (some x) r = pure r

  unfoldable pub rounds : (left : ℕ) → (old_mode : ℤ) → Proc Event Round
  rounds zero old_mode =
      pure (record { stop = none; old_mode = old_mode; reserve = negsuc 0; buf = negsuc 0 })
  rounds (suc left) old_mode = one_round old_mode >>= λ r. after_round (rounds left) r.stop r

  unfoldable pub run_func : (max_node : ℕ) → Proc Event (Round × Vars)
  run_func max_node = first max_node >>= λ (stop, v).
      (after_round (rounds max_count) stop
          (record { stop = stop; old_mode = v.mode; reserve = negsuc 0; buf = negsuc 0 })
        >>= λ r. pure (r, v))

  unfoldable pub tear_down : Round → Vars → Proc Event (Unit {0})
  tear_down r v = do
    call env (policy (free (not (is_none v.node_mask))))
    if is_minus_one r.reserve
        then pure tt
        else (call env (munmap (to_word r.reserve) (difference (to_word r.buf) (to_word r.reserve)))
            >> pure tt)
    if is_minus_one r.buf
        then pure tt
        else (call env (munmap (to_word r.buf) large_page_size) >> pure tt)

  unfoldable pub case_018 : (max_node : ℕ) → Proc Event (Option Stop)
  case_018 max_node = run_func max_node >>= λ (r, v). (tear_down r v >> pure r.stop)
