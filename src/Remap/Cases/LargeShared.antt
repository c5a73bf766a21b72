-- ===== src/Remap/Cases/LargeShared.antt =====
-- 300.c to 316.c: shared mappings of large size. A sum of two size_t wraps. What
-- sysconf(_SC_PAGESIZE) returns is the page size.
use mckernel_ostest_arm.Base.{ℕ, ◌+◌, ◌-◌, ◌*◌, ◌%◌, ◌^◌, List, [], ◌∷◌, true, none, some}
use mckernel_ostest_arm.Remap.Cases.{
  range_large_size, prot_none, prot_read, prot_write, mremap_maymove, mremap_fixed, enomem, einval,
  sigbus, sigsegv, used, free, succeeds, moves, refused, in_remap, in_param, has_data, has_access,
  raises, Case,
}

module _ (page_size large_page_size : ℕ) where
  abbrev pub range : ℕ
  range = range_large_size page_size large_page_size

  abbrev pub case_300 : Case
  case_300 = record {
    params = used range (prot_read + prot_write) true ∷ used range prot_none true ∷ [];
    old_size = range;
    new_size = range;
    from = 0;
    to = none;
    flags = 0;
    expect = succeeds;
    checks = has_data (in_remap 0) range b'0' ∷ has_access range ∷ [];
  }

  abbrev pub case_301 : Case
  case_301 = record {
    params = used range (prot_read + prot_write) true ∷ used range prot_none true ∷ [];
    old_size = 2 ^ 64 - 2 * page_size;
    new_size = 2 ^ 64 - 2 * page_size;
    from = 0;
    to = none;
    flags = 0;
    expect = succeeds;
    checks = has_data (in_remap 0) range b'0' ∷ has_access range ∷ [];
  }

  abbrev pub case_302 : Case
  case_302 = record {
    params = used (range * 2) (prot_read + prot_write) true ∷ used range prot_none true ∷ [];
    old_size = range * 2;
    new_size = (range * 2) - page_size;
    from = 0;
    to = none;
    flags = 0;
    expect = succeeds;
    checks =
        has_data (in_remap 0) ((range * 2) - page_size) b'0'
        ∷ has_access ((range * 2) - page_size)
        ∷ [];
  }

  abbrev pub case_303 : Case
  case_303 = record {
    params = used range (prot_read + prot_write) true ∷ free range ∷ used range prot_none true ∷ [];
    old_size = range;
    new_size = (range + range) % 2 ^ 64;
    from = 0;
    to = none;
    flags = 0;
    expect = succeeds;
    checks = has_data (in_remap 0) range b'0' ∷ raises sigbus (in_remap range) ∷ [];
  }

  abbrev pub case_304 : Case
  case_304 = record {
    params = used range (prot_read + prot_write) true ∷ used range prot_none true ∷ [];
    old_size = range;
    new_size = (range + range) % 2 ^ 64;
    from = 0;
    to = none;
    flags = 0;
    expect = refused enomem;
    checks = [];
  }

  abbrev pub case_305 : Case
  case_305 = record {
    params = used range (prot_read + prot_write) true ∷ used range prot_none true ∷ [];
    old_size = range;
    new_size = (range + range) % 2 ^ 64;
    from = 0;
    to = none;
    flags = mremap_maymove;
    expect = succeeds;
    checks = has_data (in_remap 0) range b'0' ∷ raises sigbus (in_remap range) ∷ [];
  }

  abbrev pub case_306 : Case
  case_306 = record {
    params = used range (prot_read + prot_write) true ∷ free range ∷ used range prot_none true ∷ [];
    old_size = range;
    new_size = range;
    from = 0;
    to = some (1, 0);
    flags = mremap_maymove + mremap_fixed;
    expect = moves;
    checks = has_data (in_remap 0) range b'0' ∷ has_access range ∷ [];
  }

  abbrev pub case_307 : Case
  case_307 = record {
    params =
        used range (prot_read + prot_write) true
        ∷ used range prot_none true
        ∷ used (range * 2) (prot_read + prot_write) true
        ∷ used range prot_none true
        ∷ [];
    old_size = range;
    new_size = range;
    from = 0;
    to = some (2, 0);
    flags = mremap_maymove + mremap_fixed;
    expect = moves;
    checks =
        has_data (in_remap 0) range b'0'
        ∷ has_data (in_param 2 range) ((range * 2) - range) b'2'
        ∷ has_access range
        ∷ [];
  }

  abbrev pub case_308 : Case
  case_308 = record {
    params =
        used range prot_none true
        ∷ used range prot_read true
        ∷ used range (prot_read + prot_write) true
        ∷ used range prot_read true
        ∷ used range prot_none true
        ∷ [];
    old_size = range;
    new_size = (range + range + range) % 2 ^ 64;
    from = 2;
    to = some (1, 0);
    flags = mremap_maymove + mremap_fixed;
    expect = refused einval;
    checks = [];
  }

  abbrev pub case_309 : Case
  case_309 = record {
    params =
        used range prot_none true
        ∷ used (range * 2) (prot_read + prot_write) true
        ∷ used range prot_none true
        ∷ [];
    old_size = range * 2;
    new_size = page_size;
    from = 1;
    to = some (1, page_size);
    flags = mremap_maymove + mremap_fixed;
    expect = refused einval;
    checks = [];
  }

  abbrev pub case_310 : Case
  case_310 = record {
    params =
        used range prot_none true
        ∷ free range
        ∷ used (range * 2) (prot_read + prot_write) true
        ∷ used range prot_none true
        ∷ [];
    old_size = range * 2;
    new_size = range * 2;
    from = 2;
    to = some (1, 0);
    flags = mremap_maymove + mremap_fixed;
    expect = refused einval;
    checks = [];
  }

  abbrev pub case_311 : Case
  case_311 = record {
    params =
        used range prot_none true
        ∷ used (range * 2) (prot_read + prot_write) true
        ∷ free range
        ∷ used range prot_none true
        ∷ [];
    old_size = range * 2;
    new_size = range * 2;
    from = 1;
    to = some (1, page_size);
    flags = mremap_maymove + mremap_fixed;
    expect = refused einval;
    checks = [];
  }

  abbrev pub case_312 : Case
  case_312 = record {
    params =
        used range prot_none true
        ∷ free range
        ∷ used range (prot_read + prot_write) true
        ∷ used range prot_none true
        ∷ [];
    old_size = range;
    new_size = range;
    from = 2;
    to = some (1, 0);
    flags = mremap_maymove + mremap_fixed;
    expect = moves;
    checks = has_data (in_remap 0) range b'2' ∷ has_access range ∷ [];
  }

  abbrev pub case_313 : Case
  case_313 = record {
    params =
        used range prot_none true
        ∷ used range (prot_read + prot_write) true
        ∷ free range
        ∷ used range prot_none true
        ∷ [];
    old_size = range;
    new_size = range;
    from = 1;
    to = some (2, 0);
    flags = mremap_maymove + mremap_fixed;
    expect = moves;
    checks = has_data (in_remap 0) range b'1' ∷ has_access range ∷ [];
  }

  abbrev pub case_314 : Case
  case_314 = record {
    params = used (range * 2) (prot_read + prot_write) true ∷ used range prot_none true ∷ [];
    old_size = range * 2;
    new_size = (range * 2) - page_size;
    from = 0;
    to = none;
    flags = 0;
    expect = succeeds;
    checks =
        has_data (in_remap 0) ((range * 2) - page_size) b'0'
        ∷ raises sigsegv (in_remap ((range * 2) - page_size))
        ∷ [];
  }

  abbrev pub case_315 : Case
  case_315 = record {
    params = used range (prot_read + prot_write) true ∷ used range prot_none true ∷ [];
    old_size = range;
    new_size = (range + range) % 2 ^ 64;
    from = 0;
    to = none;
    flags = mremap_maymove;
    expect = succeeds;
    checks = has_data (in_remap 0) range b'0' ∷ raises sigsegv (in_param 0 0) ∷ [];
  }

  abbrev pub case_316 : Case
  case_316 = record {
    params = used range (prot_read + prot_write) true ∷ free range ∷ used range prot_none true ∷ [];
    old_size = range;
    new_size = range;
    from = 0;
    to = some (1, 0);
    flags = mremap_maymove + mremap_fixed;
    expect = moves;
    checks = has_data (in_remap 0) range b'0' ∷ raises sigsegv (in_param 0 0) ∷ [];
  }

  -- The cases of these files.
  abbrev pub cases : List Case
  cases =
      case_300 ∷ case_301 ∷ case_302 ∷ case_303 ∷ case_304 ∷ case_305 ∷ case_306 ∷ case_307
      ∷ case_308 ∷ case_309 ∷ case_310 ∷ case_311 ∷ case_312 ∷ case_313 ∷ case_314 ∷ case_315
      ∷ case_316 ∷ []
