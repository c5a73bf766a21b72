-- ===== src/Mempolicy/Regions.antt =====
-- The test cases 015.c to 023.c of test_mck/src/mbind: policies for parts of seven pages, one after the
-- other, and what then holds for each page.
pub mod Painted
pub mod Passes
use mckernel_ostest_arm.Base.{
  ℕ, ◌+◌, ◌*◌, ◌%◌, ◌^◌, List, [], ◌∷◌, ◌++◌, map, true, not, Option, none, some, ◌==◌, ltb, set,
  if◌then◌else◌,
}
use mckernel_ostest_arm.Base.Int.{ℤ, pos, negsuc, is_zero, is_minus_one}
use mckernel_ostest_arm.Base.Trace.{Env, Proc, pure, call, ◌>>=◌, ◌>>◌}
use mckernel_ostest_arm.Numa.{MbindExpect, mbind_check}
use mckernel_ostest_arm.Mempolicy.Constants.{
  mpol_default, mpol_preferred, mpol_bind, mpol_interleave, mpol_f_addr,
}
use mckernel_ostest_arm.Mempolicy.{
  Event, numa, mbind, get_mempolicy, mmap, munmap, Answer, no_max_node, max_node_error,
  malloc_error, not_succeeded, check_error, Stop, failed,
}
use mckernel_ostest_arm.Mempolicy.Run.{to_word, numa_env, create_mask, destroy}

-- `struct mbind_args` of numa.h; the length is counted in pages.
pub record MbindArgs : Type 0 where
  pub mode : ℕ
  pub node_mask : ℕ
  pub npoff : ℕ
  pub npages : ℕ

abbrev pub part : (mode node_mask npoff npages : ℕ) → MbindArgs
part mode node_mask npoff npages = record {
  mode = mode;
  node_mask = node_mask;
  npoff = npoff;
  npages = npages;
}

abbrev pub expect : (mode node_mask : ℕ) → MbindExpect
expect mode node_mask = record { mode = pos mode; node_mask = node_mask }

pub record Case : Type 0 where
  pub m_args : List MbindArgs
  pub m_expect : List MbindExpect

abbrev pub num_region : ℕ
num_region = 7

module _ (env : Env Event Answer) (page_size max_node : ℕ) where
  -- The loop over `m_args`, with the words of node_mask; get_mempolicy stores other words there.
  unfoldable pub bind_all : (buf : ℕ) → List MbindArgs → (mask : List ℕ) → Proc Event (Option Stop)
  bind_all buf [] mask = pure none
  bind_all buf (m ∷ m_args) mask = do
    let addr = (buf + m.npoff * page_size) % 2 ^ 64
    b ← call env (mbind addr (m.npages * page_size) (pos m.mode) (some (m.node_mask ∷ [])) 64 0)
    if not (is_zero b.ret) then pure (some (failed not_succeeded)) else do
      g ← call env (get_mempolicy (some (negsuc 0)) (some (set mask 0 0)) max_node addr mpol_f_addr)
      if not (is_zero g.ret) then pure (some (failed not_succeeded)) else bind_all buf m_args g.mask

  unfoldable pub check_all : (buf : ℕ) → List MbindExpect → Proc Event ℤ
  check_all buf m_expect h =
      let (r, calls) =
        mbind_check (numa_env env h) page_size max_node buf mpol_f_addr 0 m_expect [] in
      (r, map numa calls ++ h)

  -- After the loop: what ends the run, node_mask, and `buf` after it.
  unfoldable pub check_regions :
      Case
      → (buf : ℤ) → (mask : List ℕ) → (bound : Option Stop)
      → Proc Event (Option Stop × Option (List ℕ) × ℤ)
  check_regions c buf mask (some x) = pure (some x, some mask, buf)
  check_regions c buf mask none = do
    r ← check_all (to_word buf) c.m_expect
    if not (is_zero r) then pure (some (failed check_error), some mask, buf) else do
      call env (munmap (to_word buf) (page_size * num_region))
      pure (none, some mask, negsuc 0)

  -- After the creation of node_mask.
  unfoldable pub bind_regions :
      Case → (buf : ℤ) → (made : Option (List ℕ)) → Proc Event (Option Stop × Option (List ℕ) × ℤ)
  bind_regions c buf none = pure (some (failed malloc_error), none, buf)
  bind_regions c buf (some mask) =
      bind_all (to_word buf) c.m_args mask >>= λ bound. check_regions c buf mask bound

  -- After mmap.
  unfoldable pub run_regions : Case → (buf : ℤ) → Proc Event (Option Stop × Option (List ℕ) × ℤ)
  run_regions c buf =
      if max_node == 0
      then pure (some (failed no_max_node), none, buf)
      else if ltb max_node 2
      then pure (some (failed max_node_error), none, buf)
      else (create_mask env max_node >>= λ (made, nr). bind_regions c buf made)

  -- TEARDOWN_FUNC, with what RUN_FUNC has returned.
  unfoldable pub tear_down :
      Option Stop → (mask : Option (List ℕ)) → (buf : ℤ) → Proc Event (Option Stop)
  tear_down stop mask buf = do
    destroy env true mask
    if is_minus_one buf
        then pure stop
        else do call env (munmap (to_word buf) (page_size * num_region)); pure stop

  unfoldable pub run_case : Case → Proc Event (Option Stop)
  run_case c = do
    b ← call env (mmap (page_size * num_region))
    (stop, mask, buf) ← run_regions c b.ret
    tear_down stop mask buf

abbrev pub case_015 : Case
case_015 = record {
  m_args = part mpol_interleave 0x03 2 3 ∷ part mpol_bind 0x01 0 1 ∷ [];
  m_expect =
      expect mpol_bind 0x01
      ∷ expect mpol_default 0x00
      ∷ expect mpol_interleave 0x03
      ∷ expect mpol_interleave 0x03
      ∷ expect mpol_interleave 0x03
      ∷ expect mpol_default 0x00
      ∷ expect mpol_default 0x00
      ∷ [];
}

abbrev pub case_016 : Case
case_016 = record {
  m_args = part mpol_interleave 0x03 1 3 ∷ part mpol_bind 0x01 1 3 ∷ [];
  m_expect =
      expect mpol_default 0x00
      ∷ expect mpol_bind 0x01
      ∷ expect mpol_bind 0x01
      ∷ expect mpol_bind 0x01
      ∷ expect mpol_default 0x00
      ∷ expect mpol_default 0x00
      ∷ expect mpol_default 0x00
      ∷ [];
}

abbrev pub case_017 : Case
case_017 = record {
  m_args = part mpol_interleave 0x03 1 3 ∷ part mpol_bind 0x01 0 5 ∷ [];
  m_expect =
      expect mpol_bind 0x01
      ∷ expect mpol_bind 0x01
      ∷ expect mpol_bind 0x01
      ∷ expect mpol_bind 0x01
      ∷ expect mpol_bind 0x01
      ∷ expect mpol_default 0x00
      ∷ expect mpol_default 0x00
      ∷ [];
}

abbrev pub case_018 : Case
case_018 = record {
  m_args = part mpol_interleave 0x03 1 3 ∷ part mpol_bind 0x01 0 2 ∷ [];
  m_expect =
      expect mpol_bind 0x01
      ∷ expect mpol_bind 0x01
      ∷ expect mpol_interleave 0x03
      ∷ expect mpol_interleave 0x03
      ∷ expect mpol_default 0x00
      ∷ expect mpol_default 0x00
      ∷ expect mpol_default 0x00
      ∷ [];
}

abbrev pub case_019 : Case
case_019 = record {
  m_args = part mpol_interleave 0x03 1 3 ∷ part mpol_bind 0x01 2 1 ∷ [];
  m_expect =
      expect mpol_default 0x00
      ∷ expect mpol_interleave 0x03
      ∷ expect mpol_bind 0x01
      ∷ expect mpol_interleave 0x03
      ∷ expect mpol_default 0x00
      ∷ expect mpol_default 0x00
      ∷ expect mpol_default 0x00
      ∷ [];
}

abbrev pub case_020 : Case
case_020 = record {
  m_args = part mpol_interleave 0x03 1 3 ∷ part mpol_bind 0x01 3 2 ∷ [];
  m_expect =
      expect mpol_default 0x00
      ∷ expect mpol_interleave 0x03
      ∷ expect mpol_interleave 0x03
      ∷ expect mpol_bind 0x01
      ∷ expect mpol_bind 0x01
      ∷ expect mpol_default 0x00
      ∷ expect mpol_default 0x00
      ∷ [];
}

abbrev pub case_021 : Case
case_021 = record {
  m_args =
      part mpol_interleave 0x03 1 3 ∷ part mpol_preferred 0x02 4 2 ∷ part mpol_bind 0x01 3 2 ∷ [];
  m_expect =
      expect mpol_default 0x00
      ∷ expect mpol_interleave 0x03
      ∷ expect mpol_interleave 0x03
      ∷ expect mpol_bind 0x01
      ∷ expect mpol_bind 0x01
      ∷ expect mpol_preferred 0x02
      ∷ expect mpol_default 0x00
      ∷ [];
}

abbrev pub case_022 : Case
case_022 = record {
  m_args =
      part mpol_interleave 0x03 1 3 ∷ part mpol_preferred 0x02 4 1 ∷ part mpol_bind 0x01 3 3 ∷ [];
  m_expect =
      expect mpol_default 0x00
      ∷ expect mpol_interleave 0x03
      ∷ expect mpol_interleave 0x03
      ∷ expect mpol_bind 0x01
      ∷ expect mpol_bind 0x01
      ∷ expect mpol_bind 0x01
      ∷ expect mpol_default 0x00
      ∷ [];
}

abbrev pub case_023 : Case
case_023 = record {
  m_args =
      part mpol_interleave 0x03 1 3 ∷ part mpol_preferred 0x02 5 2 ∷ part mpol_bind 0x01 3 3 ∷ [];
  m_expect =
      expect mpol_default 0x00
      ∷ expect mpol_interleave 0x03
      ∷ expect mpol_interleave 0x03
      ∷ expect mpol_bind 0x01
      ∷ expect mpol_bind 0x01
      ∷ expect mpol_bind 0x01
      ∷ expect mpol_preferred 0x02
      ∷ [];
}

abbrev pub cases : List Case
cases =
    case_015 ∷ case_016 ∷ case_017 ∷ case_018 ∷ case_019 ∷ case_020 ∷ case_021 ∷ case_022 ∷ case_023
    ∷ []
