-- ===== src/CopyOnWrite/Tests.antt =====
-- Writing to a file of a page, and to one of ten bytes, which is too small by one.
use mckernel_ostest_arm.Base.{ℕ, ◌≡◌, refl, List, [], ◌∷◌, true}
use mckernel_ostest_arm.Base.Int.{pos, negsuc}
use mckernel_ostest_arm.Base.Trace.{Env}
use mckernel_ostest_arm.CopyOnWrite.{
  mode_write, Args, Call, open_file, stat, close_file, Reply, no_args, parse_mode, parse_prot,
  parse_flags, parse_path, parse_argument, finish, synchronize, write_to_file, run_mode, main,
}

-- Every call answers 3, and the file has this size.
abbrev system : (size : ℕ) → Env Call Reply
system size h c = record { ret = pos 3; st_size = size }

abbrev path : List ℕ
path = b'f' ∷ []

-- `ws rws f`: write and msync, PROT_READ, PROT_WRITE and MAP_SHARED
abbrev argv : List (List ℕ)
argv = [] ∷ (b'w' ∷ b's' ∷ []) ∷ (b'r' ∷ b'w' ∷ b's' ∷ []) ∷ path ∷ []

abbrev writes : Args
writes = record no_args {
  mode = mode_write;
  sync = true;
  prot_read = true;
  prot_write = true;
  map_shared = true;
  path = path;
}

parsed : parse_argument argv ≡ writes
unfolding parse_argument parse_mode parse_prot parse_flags parse_path
parsed = refl

small_file :
    main (system 10) argv [] ≡ (negsuc 0, close_file (pos 3) ∷ stat path ∷ open_file path true ∷ [])
unfolding main parse_argument parse_mode parse_prot parse_flags parse_path run_mode write_to_file
    finish synchronize
small_file = refl
