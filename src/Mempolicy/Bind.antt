-- ===== src/Mempolicy/Bind.antt =====
-- The test cases of test_mck/src/mbind but 015.c to 023.c, by the number of the file. `tmp_buf` is where the array of the
-- stack begins, and `buf` the page that lies in it.
use mckernel_ostest_arm.Base.{ℕ, ◌+◌, ◌-◌, ◌*◌, ◌%◌, ◌^◌, List, [], ◌∷◌, true, false, none, some}
use mckernel_ostest_arm.Base.Int.{pos, negsuc}
use mckernel_ostest_arm.Harness.Number.{align_up}
use mckernel_ostest_arm.Mempolicy.Constants.{
  all_modes, mpol_default, mpol_preferred, mpol_bind, mpol_interleave, mpol_f_static_nodes,
  mpol_f_relative_nodes, mpol_f_addr, mpol_mf_strict, mpol_mf_move, mpol_mf_move_all, eperm, eio,
  einval,
}
use mckernel_ostest_arm.Mempolicy.{
  null, own, other, word, at, mapped, succeeds, refused, refused_not, need_max_node, set_mode,
  fill_other, all_zero, touch_buf, need_nodes, create, create_other, put, put_other, bind, fetch,
  mode_is, word_is, is_full, map_buf, unmap_buf, Case, no_teardown, frees_node_mask,
}

module _ (page_size max_node tmp_buf : ℕ) where
  -- `(tmp_buf + PAGE_SIZE - 1) & ~(PAGE_SIZE - 1)`
  abbrev pub buf : ℕ
  buf = align_up tmp_buf page_size

  abbrev pub case_000 : Case
  case_000 = frees_node_mask (
      need_max_node
      ∷ need_nodes 2
      ∷ create max_node
      ∷ bind (at buf) page_size (pos mpol_bind) (word 0x03) 64 0 succeeds
      ∷ fetch true own max_node (at buf) mpol_f_addr succeeds
      ∷ mode_is (pos mpol_bind)
      ∷ word_is 0x03
      ∷ put 0
      ∷ bind (at buf) page_size (pos mpol_default) null 0 0 succeeds
      ∷ set_mode
      ∷ put 0x01
      ∷ fetch true own max_node (at buf) mpol_f_addr succeeds
      ∷ mode_is (pos mpol_default)
      ∷ all_zero
      ∷ [])

  abbrev pub case_001 : Case
  case_001 =
      no_teardown (bind (at (buf + 1)) page_size (pos mpol_default) null 0 0 (refused einval) ∷ [])

  abbrev pub case_002 : Case
  case_002 = no_teardown (bind (at buf) 0 (pos mpol_default) null 0 0 succeeds ∷ [])

  abbrev pub case_003 : Case
  case_003 =
      no_teardown
        (bind (at buf) (2 ^ 64 - page_size) (pos mpol_default) null 0 0 (refused einval) ∷ [])

  abbrev pub case_004 : Case
  case_004 = no_teardown (
      need_max_node
      ∷ need_nodes 2
      ∷ bind (at buf) page_size (pos mpol_default) (word 0x03) 0 0 (refused einval)
      ∷ [])

  abbrev pub case_005 : Case
  case_005 = frees_node_mask (
      need_max_node
      ∷ need_nodes 2
      ∷ create max_node
      ∷ bind (at buf) page_size (pos mpol_bind) (word 0x03) 64 0 succeeds
      ∷ fetch true own max_node (at buf) mpol_f_addr succeeds
      ∷ mode_is (pos mpol_bind)
      ∷ word_is 0x03
      ∷ [])

  abbrev pub case_006 : Case
  case_006 = no_teardown (
      need_max_node ∷ bind (at buf) page_size (pos mpol_bind) null max_node 0 (refused einval) ∷ [])

  abbrev pub case_007 : Case
  case_007 = frees_node_mask (
      need_max_node
      ∷ need_nodes 4
      ∷ create max_node
      ∷ bind (at buf) page_size (pos mpol_bind) (word 0x0f) 2 0 succeeds
      ∷ fetch true own max_node (at buf) mpol_f_addr succeeds
      ∷ mode_is (pos mpol_bind)
      ∷ word_is 0x01
      ∷ [])

  abbrev pub case_008 : Case
  case_008 = no_teardown (
      need_max_node
      ∷ need_nodes 4
      ∷ bind (at buf) page_size (pos mpol_bind) (word 0x0c) 2 0 (refused einval)
      ∷ [])

  abbrev pub case_009 : Case
  case_009 = no_teardown (
      need_max_node
      ∷ need_nodes 2
      ∷ bind (at buf) page_size (pos mpol_bind) (word 0x03) 0 0 (refused einval)
      ∷ [])

  abbrev pub case_010 : Case
  case_010 = frees_node_mask (
      need_max_node
      ∷ need_nodes 2
      ∷ create max_node
      ∷ bind (at buf) page_size (pos (mpol_bind + mpol_f_static_nodes)) (word 0x03) 64 0 succeeds
      ∷ fetch true own max_node (at buf) mpol_f_addr succeeds
      ∷ mode_is (pos (mpol_bind + mpol_f_static_nodes))
      ∷ word_is 0x03
      ∷ [])

  abbrev pub case_011 : Case
  case_011 = frees_node_mask (
      need_max_node
      ∷ need_nodes 2
      ∷ create max_node
      ∷ bind (at buf) page_size (pos (mpol_bind + mpol_f_relative_nodes)) (word 0x03) 64 0 succeeds
      ∷ fetch true own max_node (at buf) mpol_f_addr succeeds
      ∷ mode_is (pos (mpol_bind + mpol_f_relative_nodes))
      ∷ word_is 0x03
      ∷ [])

  abbrev pub case_012 : Case
  case_012 = no_teardown (
      need_max_node
      ∷ need_nodes 2
      ∷ bind (at buf) page_size (pos (mpol_bind + mpol_f_static_nodes + mpol_f_relative_nodes))
          (word 0x03) 64 0 (refused einval)
      ∷ [])

  abbrev pub case_013 : Case
  case_013 = record {
    steps =
        need_max_node
        ∷ create ((max_node + 1) % 2 ^ 64)
        ∷ create_other ((max_node + 1) % 2 ^ 64)
        ∷ fill_other
        ∷ bind (at buf) page_size (pos mpol_bind) other ((max_node + 1) % 2 ^ 64) 0 succeeds
        ∷ fetch true own ((max_node + 1) % 2 ^ 64) (at buf) mpol_f_addr succeeds
        ∷ mode_is (pos mpol_bind)
        ∷ is_full max_node
        ∷ [];
    frees_own = true;
    frees_other = true;
    unmaps = none;
  }

  abbrev pub case_014 : Case
  case_014 = record {
    steps =
        create_other (page_size * 8 + 1)
        ∷ put_other 0x01
        ∷ bind (at buf) page_size (pos mpol_bind) other (page_size * 8 + 2) 0 (refused einval)
        ∷ [];
    frees_own = false;
    frees_other = true;
    unmaps = none;
  }

  abbrev pub case_024 : Case
  case_024 = frees_node_mask (
      need_max_node
      ∷ need_nodes 2
      ∷ create max_node
      ∷ bind (at buf) page_size (pos mpol_interleave) (word 0x03) 64 0 succeeds
      ∷ fetch true own max_node (at buf) mpol_f_addr succeeds
      ∷ mode_is (pos mpol_interleave)
      ∷ word_is 0x03
      ∷ [])

  abbrev pub case_025 : Case
  case_025 = frees_node_mask (
      need_max_node
      ∷ need_nodes 2
      ∷ create max_node
      ∷ bind (at buf) page_size (pos mpol_preferred) (word 0x03) 64 0 succeeds
      ∷ fetch true own max_node (at buf) mpol_f_addr succeeds
      ∷ mode_is (pos mpol_preferred)
      ∷ word_is 0x01
      ∷ [])

  abbrev pub case_026 : Case
  case_026 = frees_node_mask (
      need_max_node
      ∷ create max_node
      ∷ bind (at buf) page_size (pos mpol_preferred) null 0 0 succeeds
      ∷ fetch true own max_node (at buf) mpol_f_addr succeeds
      ∷ mode_is (pos mpol_preferred)
      ∷ all_zero
      ∷ [])

  abbrev pub case_027 : Case
  case_027 = record {
    steps =
        map_buf page_size false
        ∷ need_max_node
        ∷ need_nodes 2
        ∷ create max_node
        ∷ bind mapped (1 * page_size) (pos mpol_bind) (word 0x02) 64 0 succeeds
        ∷ touch_buf
        ∷ bind mapped (1 * page_size) (pos mpol_bind) (word 0x01) 64 mpol_mf_strict
            (refused_not eio)
        ∷ unmap_buf page_size
        ∷ [];
    frees_own = true;
    frees_other = false;
    unmaps = some page_size;
  }

  abbrev pub case_028 : Case
  case_028 = frees_node_mask (
      need_max_node
      ∷ need_nodes 2
      ∷ create max_node
      ∷ bind (at buf) page_size (pos mpol_bind) (word 0x03) 64 mpol_mf_move succeeds
      ∷ fetch true own max_node (at buf) mpol_f_addr succeeds
      ∷ mode_is (pos mpol_bind)
      ∷ word_is 0x03
      ∷ [])

  abbrev pub case_029 : Case
  case_029 =
      no_teardown
        (bind (at buf) page_size (pos mpol_default) null 0 mpol_mf_move_all (refused eperm) ∷ [])

  abbrev pub case_030 : Case
  case_030 = no_teardown (bind (at buf) page_size (negsuc all_modes) null 0 0 (refused einval) ∷ [])

  abbrev pub cases : List Case
  cases =
      case_000 ∷ case_001 ∷ case_002 ∷ case_003 ∷ case_004 ∷ case_005 ∷ case_006 ∷ case_007
      ∷ case_008 ∷ case_009 ∷ case_010 ∷ case_011 ∷ case_012 ∷ case_013 ∷ case_014 ∷ case_024
      ∷ case_025 ∷ case_026 ∷ case_027 ∷ case_028 ∷ case_029 ∷ case_030 ∷ []
