-- ===== src/Mempolicy/Assign.antt =====
-- The test cases of test_mck/src/set_mempolicy, by the number of the file. `tmp_buf` is where the array of the
-- stack begins, and `buf` the page that lies in it.
use mckernel_ostest_arm.Base.{ℕ, ◌+◌, ◌*◌, ◌%◌, ◌^◌, List, [], ◌∷◌, true, false, none}
use mckernel_ostest_arm.Base.Int.{pos, negsuc}
use mckernel_ostest_arm.Mempolicy.Constants.{
  all_modes, mpol_default, mpol_preferred, mpol_bind, mpol_interleave, mpol_f_static_nodes,
  mpol_f_relative_nodes, einval,
}
use mckernel_ostest_arm.Mempolicy.{
  null, own, other, word, at, succeeds, fails, refused, need_max_node, set_mode, fill_other,
  all_zero, need_nodes, create, create_other, put, put_other, assign, fetch, mode_is, word_is,
  is_full, Case, no_teardown, frees_node_mask,
}

module _ (page_size max_node : ℕ) where
  abbrev pub case_000 : Case
  case_000 = frees_node_mask (
      need_max_node
      ∷ need_nodes 2
      ∷ create max_node
      ∷ assign (pos mpol_bind) (word 0x03) 64 succeeds
      ∷ fetch true own max_node (at 0) 0 succeeds
      ∷ mode_is (pos mpol_bind)
      ∷ word_is 0x03
      ∷ assign (pos mpol_default) null 0 succeeds
      ∷ set_mode
      ∷ put 0x01
      ∷ fetch true own max_node (at 0) 0 succeeds
      ∷ mode_is (pos mpol_default)
      ∷ all_zero
      ∷ [])

  abbrev pub case_001 : Case
  case_001 = no_teardown (
      need_max_node
      ∷ assign (pos mpol_default) null max_node succeeds
      ∷ fetch true null 0 (at 0) 0 succeeds
      ∷ mode_is (pos 0)
      ∷ [])

  abbrev pub case_002 : Case
  case_002 =
      frees_node_mask
        (need_max_node ∷ create max_node ∷ assign (pos mpol_default) own 0 (refused einval) ∷ [])

  abbrev pub case_003 : Case
  case_003 = frees_node_mask (
      need_max_node
      ∷ need_nodes 2
      ∷ create max_node
      ∷ assign (pos mpol_bind) (word 0x03) 64 succeeds
      ∷ fetch true own max_node (at 0) 0 succeeds
      ∷ mode_is (pos mpol_bind)
      ∷ word_is 0x03
      ∷ [])

  abbrev pub case_004 : Case
  case_004 = frees_node_mask (
      need_max_node
      ∷ need_nodes 4
      ∷ create max_node
      ∷ assign (pos mpol_bind) (word 0x0f) 2 succeeds
      ∷ fetch true own max_node (at 0) 0 succeeds
      ∷ mode_is (pos mpol_bind)
      ∷ word_is 0x01
      ∷ [])

  abbrev pub case_005 : Case
  case_005 =
      no_teardown
        (need_max_node ∷ need_nodes 4 ∷ assign (pos mpol_bind) (word 0x0c) 2 (refused einval) ∷ [])

  abbrev pub case_006 : Case
  case_006 =
      no_teardown
        (need_max_node ∷ need_nodes 2 ∷ assign (pos mpol_bind) (word 0x03) 0 (refused einval) ∷ [])

  abbrev pub case_007 : Case
  case_007 = frees_node_mask (
      need_max_node
      ∷ need_nodes 1
      ∷ create max_node
      ∷ assign (pos mpol_bind) (word 0x01) 1 fails
      ∷ [])

  abbrev pub case_008 : Case
  case_008 = no_teardown (assign (pos mpol_bind) null 0 (refused einval) ∷ [])

  abbrev pub case_009 : Case
  case_009 = frees_node_mask (
      need_max_node
      ∷ need_nodes 2
      ∷ create max_node
      ∷ assign (pos (mpol_bind + mpol_f_static_nodes)) (word 0x03) 64 succeeds
      ∷ fetch true own max_node (at 0) 0 succeeds
      ∷ mode_is (pos (mpol_bind + mpol_f_static_nodes))
      ∷ word_is 0x03
      ∷ [])

  abbrev pub case_010 : Case
  case_010 = frees_node_mask (
      need_max_node
      ∷ need_nodes 2
      ∷ create max_node
      ∷ assign (pos (mpol_bind + mpol_f_relative_nodes)) (word 0x03) 64 succeeds
      ∷ fetch true own max_node (at 0) 0 succeeds
      ∷ mode_is (pos (mpol_bind + mpol_f_relative_nodes))
      ∷ word_is 0x03
      ∷ [])

  abbrev pub case_011 : Case
  case_011 = no_teardown (
      need_max_node
      ∷ need_nodes 2
      ∷ assign (pos (mpol_bind + mpol_f_static_nodes + mpol_f_relative_nodes)) (word 0x03) 64
          (refused einval)
      ∷ [])

  abbrev pub case_012 : Case
  case_012 = record {
    steps =
        need_max_node
        ∷ create ((max_node + 1) % 2 ^ 64)
        ∷ create_other ((max_node + 1) % 2 ^ 64)
        ∷ fill_other
        ∷ assign (pos mpol_bind) other ((max_node + 1) % 2 ^ 64) succeeds
        ∷ fetch true own ((max_node + 1) % 2 ^ 64) (at 0) 0 succeeds
        ∷ mode_is (pos mpol_bind)
        ∷ is_full max_node
        ∷ [];
    frees_own = true;
    frees_other = true;
    unmaps = none;
  }

  abbrev pub case_013 : Case
  case_013 = record {
    steps =
        create_other (page_size * 8 + 1)
        ∷ put_other 0x01
        ∷ assign (pos mpol_bind) other (page_size * 8 + 2) (refused einval)
        ∷ [];
    frees_own = false;
    frees_other = true;
    unmaps = none;
  }

  abbrev pub case_014 : Case
  case_014 = frees_node_mask (
      need_max_node
      ∷ need_nodes 2
      ∷ create max_node
      ∷ assign (pos mpol_interleave) (word 0x03) 64 succeeds
      ∷ fetch true own max_node (at 0) 0 succeeds
      ∷ mode_is (pos mpol_interleave)
      ∷ word_is 0x03
      ∷ [])

  abbrev pub case_015 : Case
  case_015 = frees_node_mask (
      need_max_node
      ∷ need_nodes 2
      ∷ create max_node
      ∷ assign (pos mpol_preferred) (word 0x03) 64 succeeds
      ∷ fetch true own max_node (at 0) 0 succeeds
      ∷ mode_is (pos mpol_preferred)
      ∷ word_is 0x01
      ∷ [])

  abbrev pub case_016 : Case
  case_016 = frees_node_mask (
      need_max_node
      ∷ create max_node
      ∷ assign (pos mpol_preferred) null 0 succeeds
      ∷ fetch true own max_node (at 0) 0 succeeds
      ∷ mode_is (pos mpol_preferred)
      ∷ word_is 0
      ∷ [])

  abbrev pub case_017 : Case
  case_017 = no_teardown (assign (negsuc all_modes) null 0 (refused einval) ∷ [])

  abbrev pub cases : List Case
  cases =
      case_000 ∷ case_001 ∷ case_002 ∷ case_003 ∷ case_004 ∷ case_005 ∷ case_006 ∷ case_007
      ∷ case_008 ∷ case_009 ∷ case_010 ∷ case_011 ∷ case_012 ∷ case_013 ∷ case_014 ∷ case_015
      ∷ case_016 ∷ case_017 ∷ []
