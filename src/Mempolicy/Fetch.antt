-- ===== src/Mempolicy/Fetch.antt =====
-- The test cases of test_mck/src/get_mempolicy but 018.c, by the number of the file. `tmp_buf` is where the array of the
-- stack begins, and `buf` the page that lies in it.
use mckernel_ostest_arm.Base.{ℕ, ◌+◌, ◌-◌, ◌^◌, List, [], ◌∷◌, true, false, some}
use mckernel_ostest_arm.Base.Int.{pos}
use mckernel_ostest_arm.Harness.Number.{align_up}
use mckernel_ostest_arm.Mempolicy.Constants.{
  mpol_default, mpol_bind, mpol_f_static_nodes, mpol_f_node, mpol_f_addr, mpol_f_mems_allowed,
  efault, einval,
}
use mckernel_ostest_arm.Mempolicy.{
  null, own, word, at, mapped, succeeds, refused, need_max_node, all_zero, need_nodes, create, put,
  bind, fetch, mode_is, is_full, mode_below, map_buf, Case, no_teardown, frees_node_mask,
}

module _ (page_size max_node tmp_buf : ℕ) where
  -- `(tmp_buf + PAGE_SIZE - 1) & ~(PAGE_SIZE - 1)`
  abbrev pub buf : ℕ
  buf = align_up tmp_buf page_size

  abbrev pub case_000 : Case
  case_000 = no_teardown (fetch true null 0 (at 0) 0 succeeds ∷ mode_is (pos mpol_default) ∷ [])

  abbrev pub case_001 : Case
  case_001 = frees_node_mask (
      need_max_node
      ∷ create max_node
      ∷ put 0x01
      ∷ fetch false own max_node (at 0) 0 succeeds
      ∷ all_zero
      ∷ [])

  abbrev pub case_002 : Case
  case_002 = no_teardown (fetch false null 0 (at 0) 0 succeeds ∷ [])

  abbrev pub case_003 : Case
  case_003 = frees_node_mask (
      need_max_node
      ∷ create max_node
      ∷ put 0x01
      ∷ fetch true own max_node (at 0) 0 succeeds
      ∷ mode_is (pos mpol_default)
      ∷ all_zero
      ∷ [])

  abbrev pub case_004 : Case
  case_004 =
      frees_node_mask
        (need_max_node ∷ create max_node ∷ fetch true own 0 (at 0) 0 (refused einval) ∷ [])

  abbrev pub case_005 : Case
  case_005 = frees_node_mask (
      need_max_node
      ∷ create max_node
      ∷ fetch true own (max_node - 1) (at 0) 0 (refused einval)
      ∷ [])

  abbrev pub case_006 : Case
  case_006 = frees_node_mask (
      need_max_node
      ∷ create max_node
      ∷ fetch false own max_node (at 0) mpol_f_mems_allowed succeeds
      ∷ is_full max_node
      ∷ [])

  abbrev pub case_007 : Case
  case_007 = frees_node_mask (
      need_max_node
      ∷ create max_node
      ∷ fetch true own max_node (at 0) mpol_f_mems_allowed succeeds
      ∷ is_full max_node
      ∷ [])

  abbrev pub case_008 : Case
  case_008 = no_teardown (fetch false null 0 (at 0) mpol_f_mems_allowed succeeds ∷ [])

  abbrev pub case_009 : Case
  case_009 = frees_node_mask (
      need_max_node
      ∷ create max_node
      ∷ fetch false own max_node (at tmp_buf) (mpol_f_mems_allowed + mpol_f_addr) (refused einval)
      ∷ [])

  abbrev pub case_010 : Case
  case_010 = frees_node_mask (
      need_max_node
      ∷ create max_node
      ∷ fetch false own max_node (at 0) (mpol_f_mems_allowed + mpol_f_node) (refused einval)
      ∷ [])

  abbrev pub case_011 : Case
  case_011 = no_teardown (
      need_max_node
      ∷ need_nodes 2
      ∷ bind (at buf) page_size (pos (mpol_bind + mpol_f_static_nodes)) (word 0x02) 64 0 succeeds
      ∷ fetch true null 0 (at buf) mpol_f_addr succeeds
      ∷ mode_is (pos (mpol_bind + mpol_f_static_nodes))
      ∷ [])

  abbrev pub case_012 : Case
  case_012 = frees_node_mask (
      need_max_node
      ∷ create max_node
      ∷ put 0x01
      ∷ fetch true own max_node (at tmp_buf) mpol_f_addr succeeds
      ∷ mode_is (pos mpol_default)
      ∷ all_zero
      ∷ [])

  abbrev pub case_013 : Case
  case_013 =
      no_teardown (fetch true null 0 (at 0xffffffff00000000) mpol_f_addr (refused efault) ∷ [])

  abbrev pub case_014 : Case
  case_014 = record {
    steps = map_buf page_size true ∷ fetch true null 0 mapped mpol_f_addr succeeds ∷ [];
    frees_own = false;
    frees_other = false;
    unmaps = some page_size;
  }

  abbrev pub case_015 : Case
  case_015 = no_teardown (fetch true null 0 (at 0) mpol_f_addr (refused efault) ∷ [])

  abbrev pub case_016 : Case
  case_016 = no_teardown (fetch true null 0 (at tmp_buf) 0 (refused einval) ∷ [])

  abbrev pub case_017 : Case
  case_017 = no_teardown (
      need_max_node
      ∷ fetch true null 0 (at tmp_buf) (mpol_f_addr + mpol_f_node) succeeds
      ∷ mode_below max_node
      ∷ [])

  abbrev pub case_019 : Case
  case_019 = no_teardown (fetch true null 0 (at 0) mpol_f_node (refused einval) ∷ [])

  abbrev pub case_020 : Case
  case_020 = no_teardown (
      fetch true null 0 (at 0) (2 ^ 64 - 1 - (mpol_f_mems_allowed + mpol_f_addr + mpol_f_node))
        (refused einval)
      ∷ [])

  abbrev pub cases : List Case
  cases =
      case_000 ∷ case_001 ∷ case_002 ∷ case_003 ∷ case_004 ∷ case_005 ∷ case_006 ∷ case_007
      ∷ case_008 ∷ case_009 ∷ case_010 ∷ case_011 ∷ case_012 ∷ case_013 ∷ case_014 ∷ case_015
      ∷ case_016 ∷ case_017 ∷ case_019 ∷ case_020 ∷ []
