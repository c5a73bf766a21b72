-- ===== src/Remap/Cases/Private.antt =====
-- 000.c to 016.c: private mappings. A sum of two size_t wraps. What
-- sysconf(_SC_PAGESIZE) returns is the page size.
use mckernel_ostest_arm.Base.{ℕ, ◌+◌, ◌-◌, ◌*◌, ◌%◌, ◌^◌, List, [], ◌∷◌, false, none, some}
use mckernel_ostest_arm.Remap.Cases.{
  range_size, prot_none, prot_read, prot_write, mremap_maymove, mremap_fixed, enomem, einval,
  sigsegv, used, free, succeeds, moves, refused, in_remap, in_param, has_data, has_access, raises,
  Case,
}

module _ (page_size : ℕ) where
  abbrev pub range : ℕ
  range = range_size page_size

  abbrev pub case_000 : Case
  case_000 = record {
    params = used range (prot_read + prot_write) false ∷ used range prot_none false ∷ [];
    old_size = range;
    new_size = range;
    from = 0;
    to = none;
    flags = 0;
    expect = succeeds;
    checks = has_data (in_remap 0) range b'0' ∷ has_access range ∷ [];
  }

  abbrev pub case_001 : Case
  case_001 = record {
    params = used range (prot_read + prot_write) false ∷ used range prot_none false ∷ [];
    old_size = 2 ^ 64 - 2 * page_size;
    new_size = 2 ^ 64 - 2 * page_size;
    from = 0;
    to = none;
    flags = 0;
    expect = succeeds;
    checks = has_data (in_remap 0) range b'0' ∷ has_access range ∷ [];
  }

  abbrev pub case_002 : Case
  case_002 = record {
    params = used (range * 2) (prot_read + prot_write) false ∷ used range prot_none false ∷ [];
    old_size = range * 2;
    new_size = (range * 2) - page_size;
    from = 0;
    to = none;
    flags = 0;
    expect = succeeds;
    checks =
        has_data (in_remap 0) ((range * 2) - page_size) b'0'
        ∷ has_access ((range * 2) - page_size)
        ∷ [];
  }

  abbrev pub case_003 : Case
  case_003 = record {
    params =
        used range (prot_read + prot_write) false ∷ free range ∷ used range prot_none false ∷ [];
    old_size = range;
    new_size = (range + range) % 2 ^ 64;
    from = 0;
    to = none;
    flags = 0;
    expect = succeeds;
    checks = has_data (in_remap 0) range b'0' ∷ has_access ((range + range) % 2 ^ 64) ∷ [];
  }

  abbrev pub case_004 : Case
  case_004 = record {
    params = used range (prot_read + prot_write) false ∷ used range prot_none false ∷ [];
    old_size = range;
    new_size = (range + range) % 2 ^ 64;
    from = 0;
    to = none;
    flags = 0;
    expect = refused enomem;
    checks = [];
  }

  abbrev pub case_005 : Case
  case_005 = record {
    params = used range (prot_read + prot_write) false ∷ used range prot_none false ∷ [];
    old_size = range;
    new_size = (range + range) % 2 ^ 64;
    from = 0;
    to = none;
    flags = mremap_maymove;
    expect = succeeds;
    checks = has_data (in_remap 0) range b'0' ∷ has_access ((range + range) % 2 ^ 64) ∷ [];
  }

  abbrev pub case_006 : Case
  case_006 = record {
    params =
        used range (prot_read + prot_write) false ∷ free range ∷ used range prot_none false ∷ [];
    old_size = range;
    new_size = range;
    from = 0;
    to = some (1, 0);
    flags = mremap_maymove + mremap_fixed;
    expect = moves;
    checks = has_data (in_remap 0) range b'0' ∷ has_access range ∷ [];
  }

  abbrev pub case_007 : Case
  case_007 = record {
    params =
        used range (prot_read + prot_write) false
        ∷ used range prot_none false
        ∷ used (range * 2) (prot_read + prot_write) false
        ∷ used range prot_none false
        ∷ [];
    old_size = range;
    new_size = range;
    from = 0;
    to = some (2, 0);
    flags = mremap_maymove + mremap_fixed;
    expect = moves;
    checks =
        has_data (in_remap 0) range b'0'
        ∷ has_data (in_param 2 range) ((range * 2) - range) b'2'
        ∷ has_access range
        ∷ [];
  }

  abbrev pub case_008 : Case
  case_008 = record {
    params =
        used range prot_none false
        ∷ used range prot_read false
        ∷ used range (prot_read + prot_write) false
        ∷ used range prot_read false
        ∷ used range prot_none false
        ∷ [];
    old_size = range;
    new_size = (range + range + range) % 2 ^ 64;
    from = 2;
    to = some (1, 0);
    flags = mremap_maymove + mremap_fixed;
    expect = refused einval;
    checks = [];
  }

  abbrev pub case_009 : Case
  case_009 = record {
    params =
        used range prot_none false
        ∷ used (range * 2) (prot_read + prot_write) false
        ∷ used range prot_none false
        ∷ [];
    old_size = range * 2;
    new_size = page_size;
    from = 1;
    to = some (1, page_size);
    flags = mremap_maymove + mremap_fixed;
    expect = refused einval;
    checks = [];
  }

  abbrev pub case_010 : Case
  case_010 = record {
    params =
        used range prot_none false
        ∷ free range
        ∷ used (range * 2) (prot_read + prot_write) false
        ∷ used range prot_none false
        ∷ [];
    old_size = range * 2;
    new_size = range * 2;
    from = 2;
    to = some (1, 0);
    flags = mremap_maymove + mremap_fixed;
    expect = refused einval;
    checks = [];
  }

  abbrev pub case_011 : Case
  case_011 = record {
    params =
        used range prot_none false
        ∷ used (range * 2) (prot_read + prot_write) false
        ∷ free range
        ∷ used range prot_none false
        ∷ [];
    old_size = range * 2;
    new_size = range * 2;
    from = 1;
    to = some (1, page_size);
    flags = mremap_maymove + mremap_fixed;
    expect = refused einval;
    checks = [];
  }

  abbrev pub case_012 : Case
  case_012 = record {
    params =
        used range prot_none false
        ∷ free range
        ∷ used range (prot_read + prot_write) false
        ∷ used range prot_none false
        ∷ [];
    old_size = range;
    new_size = range;
    from = 2;
    to = some (1, 0);
    flags = mremap_maymove + mremap_fixed;
    expect = moves;
    checks = has_data (in_remap 0) range b'2' ∷ has_access range ∷ [];
  }

  abbrev pub case_013 : Case
  case_013 = record {
    params =
        used range prot_none false
        ∷ used range (prot_read + prot_write) false
        ∷ free range
        ∷ used range prot_none false
        ∷ [];
    old_size = range;
    new_size = range;
    from = 1;
    to = some (2, 0);
    flags = mremap_maymove + mremap_fixed;
    expect = moves;
    checks = has_data (in_remap 0) range b'1' ∷ has_access range ∷ [];
  }

  abbrev pub case_014 : Case
  case_014 = record {
    params = used (range * 2) (prot_read + prot_write) false ∷ used range prot_none false ∷ [];
    old_size = range * 2;
    new_size = (range * 2) - page_size;
    from = 0;
    to = none;
    flags = 0;
    expect = succeeds;
    checks =
        has_data (in_remap 0) ((range * 2) - page_size) b'0'
        ∷ raises sigsegv (in_remap ((range * 2) - page_size))
        ∷ [];
  }

  abbrev pub case_015 : Case
  case_015 = record {
    params = used range (prot_read + prot_write) false ∷ used range prot_none false ∷ [];
    old_size = range;
    new_size = (range + range) % 2 ^ 64;
    from = 0;
    to = none;
    flags = mremap_maymove;
    expect = succeeds;
    checks = has_data (in_remap 0) range b'0' ∷ raises sigsegv (in_param 0 0) ∷ [];
  }

  abbrev pub case_016 : Case
  case_016 = record {
    params =
        used range (prot_read + prot_write) false ∷ free range ∷ used range prot_none false ∷ [];
    old_size = range;
    new_size = range;
    from = 0;
    to = some (1, 0);
    flags = mremap_maymove + mremap_fixed;
    expect = moves;
    checks = has_data (in_remap 0) range b'0' ∷ raises sigsegv (in_param 0 0) ∷ [];
  }

  -- The cases of these files.
  abbrev pub cases : List Case
  cases =
      case_000 ∷ case_001 ∷ case_002 ∷ case_003 ∷ case_004 ∷ case_005 ∷ case_006 ∷ case_007
      ∷ case_008 ∷ case_009 ∷ case_010 ∷ case_011 ∷ case_012 ∷ case_013 ∷ case_014 ∷ case_015
      ∷ case_016 ∷ []
