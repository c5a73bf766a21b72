-- ===== src/Mempolicy/Interleave/Released.antt =====
-- The address ranges that get_mempolicy/018.c reserves and unmaps.
use mckernel_ostest_arm.Base.{
  ℕ, zero, suc, ◌+◌, ◌*◌, ◌^◌, ◌≤◌, ◌<◌, ◌≡◌, ◌⊎◌, inl, inr, refl, arith, List, [], ◌∷◌, ◌++◌, map,
  Option, none, some, ltb, if◌then◌else◌,
}
use mckernel_ostest_arm.Base.Int.{ℤ, pos, negsuc, is_minus_one}
use mckernel_ostest_arm.Base.Trace.{Env, Proc, total_gain, total_loss}
use mckernel_ostest_arm.Harness.Number.{align_up}
use mckernel_ostest_arm.Harness.Number.Laws.{align_up_least}
use mckernel_ostest_arm.Mempolicy.{Answer, Stop, Vars, at_start, store}
use mckernel_ostest_arm.Mempolicy
use mckernel_ostest_arm.Mempolicy.Run.{run_steps, to_word}
use mckernel_ostest_arm.Mempolicy.Interleave.{
  Event, policy, mmap_reserve, mmap_fixed, munmap, Round, policy_env, first_steps, first, release,
  after_fetch, after_fixed, after_reserve, one_round, after_round, rounds, run_func, tear_down,
  case_018, max_count,
}

-- Whether an address is in a range.
abbrev pub covers : (addr len x : ℕ) → ℕ
covers a len x = if ltb x a then 0 else if ltb x (a + len) then 1 else 0

abbrev pub mapped_at : (x : ℕ) → Event → Answer → ℕ
mapped_at x (mmap_reserve len) a = if is_minus_one a.ret then 0 else covers (to_word a.ret) len x
mapped_at x (policy e) a = 0
mapped_at x (mmap_fixed addr len) a = 0
mapped_at x (munmap addr len) a = 0

abbrev pub unmapped_at : (x : ℕ) → Event → ℕ
unmapped_at x (munmap addr len) = covers addr len x
unmapped_at x (policy e) = 0
unmapped_at x (mmap_reserve len) = 0
unmapped_at x (mmap_fixed addr len) = 0

abbrev pub Fits : (len : ℕ) → ℤ → Type 0
Fits len (pos r) = r + len < 2 ^ 64
Fits len (negsuc n) = n ≡ 0

-- What mmap answers: MAP_FAILED or a range that does not pass the last address, which with MAP_FIXED
-- begins at the address that it is given.
abbrev pub Located : Event → Answer → Type 0
Located (mmap_reserve len) a = Fits len a.ret
Located (mmap_fixed addr len) a = (a.ret ≡ pos addr) ⊎ (a.ret ≡ negsuc 0)
Located (policy e) a = Unit {0}
Located (munmap addr len) a = Unit {0}

abbrev pub tail : Option Stop → ℕ
tail none = 0
tail (some x) = 1

-- What a round leaves: nothing, or after a failing assert a range with the large page in it.
abbrev Kept : (large : ℕ) → Option Stop → (reserve buf : ℤ) → Type 0
Kept large stop (negsuc n) buf = (n ≡ 0) × (buf ≡ negsuc 0)
Kept large stop (pos r) buf =
    (r + large * 2 < 2 ^ 64) × ((buf ≡ pos (align_up r large)) ⊎ (buf ≡ negsuc 0)) × (tail stop ≡ 1)

abbrev held : (large : ℕ) → (reserve : ℤ) → (x : ℕ) → ℕ
held large reserve x = if is_minus_one reserve then 0 else covers (to_word reserve) (large * 2) x

-- What is mapped and not unmapped is what the round leaves.
abbrev Settled : (env : Env Event Answer) (large x : ℕ) → Round × List Event → Type 0
Settled env large x (s, h) =
    Kept large s.stop s.reserve s.buf
    × (total_gain (mapped_at x) env h ≡ total_loss (unmapped_at x) h + held large s.reserve x)

module _ (env : Env Event Answer) (large x : ℕ) (is_pos : 0 < large)
    (located : (h : List Event) (e : Event) → Located e (env h e)) where
  release-covers :
      (r b : ℕ) (h : List Event)
      → r ≤ b
      → b < r + large
      → r + large * 2 < 2 ^ 64
      → let h' = (release env large r b h).1 in
        (total_gain (mapped_at x) env h' ≡ total_gain (mapped_at x) env h)
        × (total_loss (unmapped_at x) h' ≡ total_loss (unmapped_at x) h + covers r (large * 2) x)
  unfolding release
  release-covers r b h above below fits = ground arith

  after_fetch-Settled :
      (old : ℤ) (r : ℕ) (a : Answer) (h : List Event)
      → r + large * 2 < 2 ^ 64
      → total_gain (mapped_at x) env h ≡ total_loss (unmapped_at x) h + covers r (large * 2) x
      → Settled env large x (after_fetch env large old (pos r) (pos (align_up r large)) a h)
  unfolding after_fetch
  after_fetch-Settled old r a h fits same =
      let (aligned, above, below) = align_up_least r large is_pos (omega arith) in
      let released = release-covers r (align_up r large) h above below fits in ground arith

  after_fixed-Settled :
      (old : ℤ) (r : ℕ) (b : Answer) (h : List Event)
      → r + large * 2 < 2 ^ 64
      → (b.ret ≡ pos (align_up r large)) ⊎ (b.ret ≡ negsuc 0)
      → total_gain (mapped_at x) env h ≡ total_loss (unmapped_at x) h + covers r (large * 2) x
      → Settled env large x (after_fixed env large old (pos r) b h)
  unfolding after_fixed
  after_fixed-Settled old r b h fits (inl there) same = rw there (
      after_fetch-Settled old r _ (_ ∷ policy (store (align_up r large)) ∷ h) fits
        (omega (arith, same)))
  after_fixed-Settled old r b h fits (inr failed) same = rw failed ((fits, inr refl, refl), same)

  after_reserve-Settled :
      (old ret : ℤ) (a : Answer) (h : List Event)
      → a.ret ≡ ret
      → Fits (large * 2) ret
      → total_gain (mapped_at x) env h ≡ total_loss (unmapped_at x) h + held large ret x
      → Settled env large x (after_reserve env large old a h)
  unfolding after_reserve
  after_reserve-Settled old (pos r) a h e fits same = rw e (
      after_fixed-Settled old r _ (mmap_fixed (align_up r large) large ∷ h) fits
        (located h (mmap_fixed (align_up r large) large)) (omega (arith, same)))
  after_reserve-Settled old (negsuc n) a h e fits same = rw (e, fits) (ground arith)

  one_round-Settled :
      (old : ℤ) (h : List Event)
      → total_gain (mapped_at x) env h ≡ total_loss (unmapped_at x) h
      → Settled env large x (one_round env large old h)
  unfolding one_round
  one_round-Settled old h same =
      let a = env h (mmap_reserve (large * 2)) in
      after_reserve-Settled old a.ret a (mmap_reserve (large * 2) ∷ h) refl
        (located h (mmap_reserve (large * 2))) (omega (arith, same))

  no_tail :
      (reserve buf : ℤ) (stop : Option Stop)
      → stop ≡ none
      → Kept large stop reserve buf
      → {g l : ℕ} → g ≡ l + held large reserve x
      → g ≡ l
  no_tail (pos r) buf stop e kept {g} {l} same = ground arith
  no_tail (negsuc n) buf stop e kept {g} {l} same = ground arith

  after_round-Settled :
      (next : ℤ → Proc Event Round)
      → ((old : ℤ) (h : List Event)
          → total_gain (mapped_at x) env h ≡ total_loss (unmapped_at x) h
          → Settled env large x (next old h))
      → (stop : Option Stop) (r : Round) (h : List Event) → r.stop ≡ stop
      → Settled env large x (r, h)
      → Settled env large x (after_round env large next stop r h)
  unfolding after_round
  after_round-Settled next nexts none r h e settled =
      nexts r.old_mode h (no_tail r.reserve r.buf r.stop e settled.0 settled.1)
  after_round-Settled next nexts (some s) r h e settled = settled

  rounds-Settled :
      (left : ℕ) (old : ℤ) (h : List Event)
      → total_gain (mapped_at x) env h ≡ total_loss (unmapped_at x) h
      → Settled env large x (rounds env large left old h)
  unfolding rounds
  rounds-Settled zero old h same = ground arith
  rounds-Settled (suc left) old h same =
      let (r, h1) = one_round env large old h in
      after_round-Settled (rounds env large left) (rounds-Settled left) r.stop r h1 refl
        (one_round-Settled old h same)

  policy_unmapped :
      (calls : List Mempolicy.Event) (h : List Event)
      → (total_gain (mapped_at x) env (map policy calls ++ h) ≡ total_gain (mapped_at x) env h)
        × (total_loss (unmapped_at x) (map policy calls ++ h) ≡ total_loss (unmapped_at x) h)
  policy_unmapped [] h = (refl, refl)
  policy_unmapped (c ∷ calls) h = let rest = policy_unmapped calls h in ground arith

  tear_down-covers :
      (reserve buf : ℤ) (r : Round) (v : Vars) (h : List Event)
      → r.reserve ≡ reserve
      → r.buf ≡ buf
      → Kept large r.stop reserve buf
      → total_gain (mapped_at x) env h ≡ total_loss (unmapped_at x) h + held large reserve x
      → let h' = (tear_down env large r v h).1 in
        (total_loss (unmapped_at x) h' ≤ total_gain (mapped_at x) env h' + tail r.stop)
        × (total_gain (mapped_at x) env h' ≤ total_loss (unmapped_at x) h' + tail r.stop)
  unfolding tear_down
  tear_down-covers (negsuc n) buf r v h e f kept same = rw (e, f, kept.0, kept.1) (ground arith)
  tear_down-covers (pos n) buf r v h e f (fits, inl there, last) same =
      let (aligned, above, below) = align_up_least n large is_pos (omega (arith, fits)) in
      rw (e, f, there) (ground arith)
  tear_down-covers (pos n) buf r v h e f (fits, inr failed, last) same =
      rw (e, f, failed) (ground arith)

  -- Where mmap answers MAP_FAILED or a range that does not pass the last address, which with MAP_FIXED
  -- begins where it is asked to, and large pages are not empty: a run of 018.c that passes unmaps each
  -- address as often as it has reserved it, and in any other run the two differ by at most one at each
  -- address.
  pub case_018-covers :
      (max_node : ℕ)
      → let (stop, h) = case_018 env large max_node [] in
        (total_loss (unmapped_at x) h ≤ total_gain (mapped_at x) env h + tail stop)
        × (total_gain (mapped_at x) env h ≤ total_loss (unmapped_at x) h + tail stop)
  unfolding case_018 run_func first
  case_018-covers max_node =
      let ((stop, v), calls) =
        run_steps (policy_env env []) max_node (first_steps max_node) at_start [] in
      let quiet = policy_unmapped calls [] in
      let start : Round = record {
        stop = stop;
        old_mode = v.mode;
        reserve = negsuc 0;
        buf = negsuc 0;
      } in
      let settled =
        after_round-Settled (rounds env large max_count) (rounds-Settled max_count) stop start
          (map policy calls ++ []) refl (ground arith) in
      let (r, h1) =
        after_round env large (rounds env large max_count) stop start (map policy calls ++ []) in
      tear_down-covers r.reserve r.buf r v h1 refl refl settled.0 settled.1
