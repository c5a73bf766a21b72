-- ===== src/Remap/Cases/Shared.antt =====
-- 100.c to 116.c: shared mappings. A sum of two size_t wraps. What
-- sysconf(_SC_PAGESIZE) returns is the page size.
use mckernel_ostest_arm.Base.{ℕ, ◌+◌, ◌-◌, ◌*◌, ◌%◌, ◌^◌, List, [], ◌∷◌, true, none, some}
use mckernel_ostest_arm.Remap.Cases.{
  range_size, prot_none, prot_read, prot_write, mremap_maymove, mremap_fixed, enomem, einval,
  sigbus, sigsegv, used, free, succeeds, moves, refused, in_remap, in_param, has_data, has_access,
  raises, Case,
}

module _ (page_size : ℕ) where
  abbrev pub range : ℕ
  range = range_size page_size

  abbrev pub case_100 : Case
  case_100 = record {
    params = used range (prot_read + prot_write) true ∷ used range prot_none true ∷ [];
    old_size = range;
    new_size = range;
    from = 0;
    to = none;
    flags = 0;
    expect = succeeds;
    checks = has_data (in_remap 0) range b'0' ∷ has_access range ∷ [];
  }

  abbrev pub case_101 : Case
  case_101 = record {
    params = used range (prot_read + prot_write) true ∷ used range prot_none true ∷ [];
    old_size = 2 ^ 64 - 2 * page_size;
    new_size = 2 ^ 64 - 2 * page_size;
    from = 0;
    to = none;
    flags = 0;
    expect = succeeds;
    checks = has_data (in_remap 0) range b'0' ∷ has_access range ∷ [];
  }

  abbrev pub case_102 : Case
  case_102 = record {
    params = used (range * 2) (prot_read + prot_write) true ∷ used range prot_none true ∷ [];
    old_size = range * 2;
    new_size = (range * 2) - page_size;
    from = 0;
    to = none;
    flags = 0;
    expect = succeeds;
    checks =
        has_data (in_remap 0) ((range * 2) - page_size) b'0'
        ∷ has_access ((range * 2) - page_size)
        ∷ [];
  }

  abbrev pub case_103 : Case
  case_103 = record {
    params = used range (prot_read + prot_write) true ∷ free range ∷ used range prot_none true ∷ [];
    old_size = range;
    new_size = (range + range) % 2 ^ 64;
    from = 0;
    to = none;
    flags = 0;
    expect = succeeds;
    checks = has_data (in_remap 0) range b'0' ∷ raises sigbus (in_remap range) ∷ [];
  }

  abbrev pub case_104 : Case
  case_104 = record {
    params = used range (prot_read + prot_write) true ∷ used range prot_none true ∷ [];
    old_size = range;
    new_size = (range + range) % 2 ^ 64;
    from = 0;
    to = none;
    flags = 0;
    expect = refused enomem;
    checks = [];
  }

  abbrev pub case_105 : Case
  case_105 = record {
    params = used range (prot_read + prot_write) true ∷ used range prot_none true ∷ [];
    old_size = range;
    new_size = (range + range) % 2 ^ 64;
    from = 0;
    to = none;
    flags = mremap_maymove;
    expect = succeeds;
    checks = has_data (in_remap 0) range b'0' ∷ raises sigbus (in_remap range) ∷ [];
  }

  abbrev pub case_106 : Case
  case_106 = record {
    params = used range (prot_read + prot_write) true ∷ free range ∷ used range prot_none true ∷ [];
    old_size = range;
    new_size = range;
    from = 0;
    to = some (1, 0);
    flags = mremap_maymove + mremap_fixed;
    expect = moves;
    checks = has_data (in_remap 0) range b'0' ∷ has_access range ∷ [];
  }

  abbrev pub case_107 : Case
  case_107 = record {
    params =
        used range (prot_read + prot_write) true
        ∷ used range prot_none true
        ∷ used (range * 2) (prot_read + prot_write) true
        ∷ used range prot_none true
        ∷ [];
    old_size = range;
    new_size = range;
    from = 0;
    to = some (2, 0);
    flags = mremap_maymove + mremap_fixed;
    expect = moves;
    checks =
        has_data (in_remap 0) range b'0'
        ∷ has_data (in_param 2 range) ((range * 2) - range) b'2'
        ∷ has_access range
        ∷ [];
  }

  abbrev pub case_108 : Case
  case_108 = record {
    params =
        used range prot_none true
        ∷ used range prot_read true
        ∷ used range (prot_read + prot_write) true
        ∷ used range prot_read true
        ∷ used range prot_none true
        ∷ [];
    old_size = range;
    new_size = (range + range + range) % 2 ^ 64;
    from = 2;
    to = some (1, 0);
    flags = mremap_maymove + mremap_fixed;
    expect = refused einval;
    checks = [];
  }

  abbrev pub case_109 : Case
  case_109 = record {
    params =
        used range prot_none true
        ∷ used (range * 2) (prot_read + prot_write) true
        ∷ used range prot_none true
        ∷ [];
    old_size = range * 2;
    new_size = page_size;
    from = 1;
    to = some (1, page_size);
    flags = mremap_maymove + mremap_fixed;
    expect = refused einval;
    checks = [];
  }

  abbrev pub case_110 : Case
  case_110 = record {
    params =
        used range prot_none true
        ∷ free range
        ∷ used (range * 2) (prot_read + prot_write) true
        ∷ used range prot_none true
        ∷ [];
    old_size = range * 2;
    new_size = range * 2;
    from = 2;
    to = some (1, 0);
    flags = mremap_maymove + mremap_fixed;
    expect = refused einval;
    checks = [];
  }

  abbrev pub case_111 : Case
  case_111 = record {
    params =
        used range prot_none true
        ∷ used (range * 2) (prot_read + prot_write) true
        ∷ free range
        ∷ used range prot_none true
        ∷ [];
    old_size = range * 2;
    new_size = range * 2;
    from = 1;
    to = some (1, page_size);
    flags = mremap_maymove + mremap_fixed;
    expect = refused einval;
    checks = [];
  }

  abbrev pub case_112 : Case
  case_112 = record {
    params =
        used range prot_none true
        ∷ free range
        ∷ used range (prot_read + prot_write) true
        ∷ used range prot_none true
        ∷ [];
    old_size = range;
    new_size = range;
    from = 2;
    to = some (1, 0);
    flags = mremap_maymove + mremap_fixed;
    expect = moves;
    checks = has_data (in_remap 0) range b'2' ∷ has_access range ∷ [];
  }

  abbrev pub case_113 : Case
  case_113 = record {
    params =
        used range prot_none true
        ∷ used range (prot_read + prot_write) true
        ∷ free range
        ∷ used range prot_none true
        ∷ [];
    old_size = range;
    new_size = range;
    from = 1;
    to = some (2, 0);
    flags = mremap_maymove + mremap_fixed;
    expect = moves;
    checks = has_data (in_remap 0) range b'1' ∷ has_access range ∷ [];
  }

  abbrev pub case_114 : Case
  case_114 = record {
    params = used (range * 2) (prot_read + prot_write) true ∷ used range prot_none true ∷ [];
    old_size = range * 2;
    new_size = (range * 2) - page_size;
    from = 0;
    to = none;
    flags = 0;
    expect = succeeds;
    checks =
        has_data (in_remap 0) ((range * 2) - page_size) b'0'
        ∷ raises sigsegv (in_remap ((range * 2) - page_size))
        ∷ [];
  }

  abbrev pub case_115 : Case
  case_115 = record {
    params = used range (prot_read + prot_write) true ∷ used range prot_none true ∷ [];
    old_size = range;
    new_size = (range + range) % 2 ^ 64;
    from = 0;
    to = none;
    flags = mremap_maymove;
    expect = succeeds;
    checks = has_data (in_remap 0) range b'0' ∷ raises sigsegv (in_param 0 0) ∷ [];
  }

  abbrev pub case_116 : Case
  case_116 = record {
    params = used range (prot_read + prot_write) true ∷ free range ∷ used range prot_none true ∷ [];
    old_size = range;
    new_size = range;
    from = 0;
    to = some (1, 0);
    flags = mremap_maymove + mremap_fixed;
    expect = moves;
    checks = has_data (in_remap 0) range b'0' ∷ raises sigsegv (in_param 0 0) ∷ [];
  }

  -- The cases of these files.
  abbrev pub cases : List Case
  cases =
      case_100 ∷ case_101 ∷ case_102 ∷ case_103 ∷ case_104 ∷ case_105 ∷ case_106 ∷ case_107
      ∷ case_108 ∷ case_109 ∷ case_110 ∷ case_111 ∷ case_112 ∷ case_113 ∷ case_114 ∷ case_115
      ∷ case_116 ∷ []
