-- ===== src/Remap/Cases/LargePrivate.antt =====
-- 200.c to 216.c: private mappings of large size. A sum of two size_t wraps. What
-- sysconf(_SC_PAGESIZE) returns is the page size.
use mckernel_ostest_arm.Base.{ℕ, ◌+◌, ◌-◌, ◌*◌, ◌%◌, ◌^◌, List, [], ◌∷◌, false, none, some}
use mckernel_ostest_arm.Remap.Cases.{
  range_large_size, prot_none, prot_read, prot_write, mremap_maymove, mremap_fixed, enomem, einval,
  sigsegv, used, free, succeeds, moves, refused, in_remap, in_param, has_data, has_access, raises,
  Case,
}

module _ (page_size large_page_size : ℕ) where
  abbrev pub range : ℕ
  range = range_large_size page_size large_page_size

  abbrev pub case_200 : Case
  case_200 = record {
    params = used range (prot_read + prot_write) false ∷ used range prot_none false ∷ [];
    old_size = range;
    new_size = range;
    from = 0;
    to = none;
    flags = 0;
    expect = succeeds;
    checks = has_data (in_remap 0) range b'0' ∷ has_access range ∷ [];
  }

  abbrev pub case_201 : Case
  case_201 = record {
    params = used range (prot_read + prot_write) false ∷ used range prot_none false ∷ [];
    old_size = 2 ^ 64 - 2 * page_size;
    new_size = 2 ^ 64 - 2 * page_size;
    from = 0;
    to = none;
    flags = 0;
    expect = succeeds;
    checks = has_data (in_remap 0) range b'0' ∷ has_access range ∷ [];
  }

  abbrev pub case_202 : Case
  case_202 = record {
    params = used (range * 2) (prot_read + prot_write) false ∷ used range prot_none false ∷ [];
    old_size = range * 2;
    new_size = (range * 2) - page_size;
    from = 0;
    to = none;
    flags = 0;
    expect = succeeds;
    checks =
        has_data (in_remap 0) ((range * 2) - page_size) b'0'
        ∷ has_access ((range * 2) - page_size)
        ∷ [];
  }

  abbrev pub case_203 : Case
  case_203 = record {
    params =
        used range (prot_read + prot_write) false ∷ free range ∷ used range prot_none false ∷ [];
    old_size = range;
    new_size = (range + range) % 2 ^ 64;
    from = 0;
    to = none;
    flags = 0;
    expect = succeeds;
    checks = has_data (in_remap 0) range b'0' ∷ has_access ((range + range) % 2 ^ 64) ∷ [];
  }

  abbrev pub case_204 : Case
  case_204 = record {
    params = used range (prot_read + prot_write) false ∷ used range prot_none false ∷ [];
    old_size = range;
    new_size = (range + range) % 2 ^ 64;
    from = 0;
    to = none;
    flags = 0;
    expect = refused enomem;
    checks = [];
  }

  abbrev pub case_205 : Case
  case_205 = record {
    params = used range (prot_read + prot_write) false ∷ used range prot_none false ∷ [];
    old_size = range;
    new_size = (range + range) % 2 ^ 64;
    from = 0;
    to = none;
    flags = mremap_maymove;
    expect = succeeds;
    checks = has_data (in_remap 0) range b'0' ∷ has_access ((range + range) % 2 ^ 64) ∷ [];
  }

  abbrev pub case_206 : Case
  case_206 = record {
    params =
        used range (prot_read + prot_write) false ∷ free range ∷ used range prot_none false ∷ [];
    old_size = range;
    new_size = range;
    from = 0;
    to = some (1, 0);
    flags = mremap_maymove + mremap_fixed;
    expect = moves;
    checks = has_data (in_remap 0) range b'0' ∷ has_access range ∷ [];
  }

  abbrev pub case_207 : Case
  case_207 = record {
    params =
        used range (prot_read + prot_write) false
        ∷ used range prot_none false
        ∷ used (range * 2) (prot_read + prot_write) false
        ∷ used range prot_none false
        ∷ [];
    old_size = range;
    new_size = range;
    from = 0;
    to = some (2, 0);
    flags = mremap_maymove + mremap_fixed;
    expect = moves;
    checks =
        has_data (in_remap 0) range b'0'
        ∷ has_data (in_param 2 range) ((range * 2) - range) b'2'
        ∷ has_access range
        ∷ [];
  }

  abbrev pub case_208 : Case
  case_208 = record {
    params =
        used range prot_none false
        ∷ used range prot_read false
        ∷ used range (prot_read + prot_write) false
        ∷ used range prot_read false
        ∷ used range prot_none false
        ∷ [];
    old_size = range;
    new_size = (range + range + range) % 2 ^ 64;
    from = 2;
    to = some (1, 0);
    flags = mremap_maymove + mremap_fixed;
    expect = refused einval;
    checks = [];
  }

  abbrev pub case_209 : Case
  case_209 = record {
    params =
        used range prot_none false
        ∷ used (range * 2) (prot_read + prot_write) false
        ∷ used range prot_none false
        ∷ [];
    old_size = range * 2;
    new_size = page_size;
    from = 1;
    to = some (1, page_size);
    flags = mremap_maymove + mremap_fixed;
    expect = refused einval;
    checks = [];
  }

  abbrev pub case_210 : Case
  case_210 = record {
    params =
        used range prot_none false
        ∷ free range
        ∷ used (range * 2) (prot_read + prot_write) false
        ∷ used range prot_none false
        ∷ [];
    old_size = range * 2;
    new_size = range * 2;
    from = 2;
    to = some (1, 0);
    flags = mremap_maymove + mremap_fixed;
    expect = refused einval;
    checks = [];
  }

  abbrev pub case_211 : Case
  case_211 = record {
    params =
        used range prot_none false
        ∷ used (range * 2) (prot_read + prot_write) false
        ∷ free range
        ∷ used range prot_none false
        ∷ [];
    old_size = range * 2;
    new_size = range * 2;
    from = 1;
    to = some (1, page_size);
    flags = mremap_maymove + mremap_fixed;
    expect = refused einval;
    checks = [];
  }

  abbrev pub case_212 : Case
  case_212 = record {
    params =
        used range prot_none false
        ∷ free range
        ∷ used range (prot_read + prot_write) false
        ∷ used range prot_none false
        ∷ [];
    old_size = range;
    new_size = range;
    from = 2;
    to = some (1, 0);
    flags = mremap_maymove + mremap_fixed;
    expect = moves;
    checks = has_data (in_remap 0) range b'2' ∷ has_access range ∷ [];
  }

  abbrev pub case_213 : Case
  case_213 = record {
    params =
        used range prot_none false
        ∷ used range (prot_read + prot_write) false
        ∷ free range
        ∷ used range prot_none false
        ∷ [];
    old_size = range;
    new_size = range;
    from = 1;
    to = some (2, 0);
    flags = mremap_maymove + mremap_fixed;
    expect = moves;
    checks = has_data (in_remap 0) range b'1' ∷ has_access range ∷ [];
  }

  abbrev pub case_214 : Case
  case_214 = record {
    params = used (range * 2) (prot_read + prot_write) false ∷ used range prot_none false ∷ [];
    old_size = range * 2;
    new_size = (range * 2) - page_size;
    from = 0;
    to = none;
    flags = 0;
    expect = succeeds;
    checks =
        has_data (in_remap 0) ((range * 2) - page_size) b'0'
        ∷ raises sigsegv (in_remap ((range * 2) - page_size))
        ∷ [];
  }

  abbrev pub case_215 : Case
  case_215 = record {
    params = used range (prot_read + prot_write) false ∷ used range prot_none false ∷ [];
    old_size = range;
    new_size = (range + range) % 2 ^ 64;
    from = 0;
    to = none;
    flags = mremap_maymove;
    expect = succeeds;
    checks = has_data (in_remap 0) range b'0' ∷ raises sigsegv (in_param 0 0) ∷ [];
  }

  abbrev pub case_216 : Case
  case_216 = record {
    params =
        used range (prot_read + prot_write) false ∷ free range ∷ used range prot_none false ∷ [];
    old_size = range;
    new_size = range;
    from = 0;
    to = some (1, 0);
    flags = mremap_maymove + mremap_fixed;
    expect = moves;
    checks = has_data (in_remap 0) range b'0' ∷ raises sigsegv (in_param 0 0) ∷ [];
  }

  -- The cases of these files.
  abbrev pub cases : List Case
  cases =
      case_200 ∷ case_201 ∷ case_202 ∷ case_203 ∷ case_204 ∷ case_205 ∷ case_206 ∷ case_207
      ∷ case_208 ∷ case_209 ∷ case_210 ∷ case_211 ∷ case_212 ∷ case_213 ∷ case_214 ∷ case_215
      ∷ case_216 ∷ []
