-- ===== src/Madvise.antt =====
-- test_mck/src/madvise/madvise.c, and 000.c, whose functions 001.c to 015.c take over.
pub mod Closed
mod Tests
use mckernel_ostest_arm.Base.{
  ℕ, zero, suc, ◌-◌, ◌%◌, List, [], ◌∷◌, Bool, true, false, Option, none, some, ◌==◌, ltb,
  get_elem?, if◌then◌else◌,
}
use mckernel_ostest_arm.Base.Int.{ℤ, pos, negsuc, eq_ℤ, is_neg, is_minus_one}
use mckernel_ostest_arm.Base.Trace.{Env, Proc, pure, call, ◌>>=◌, ◌>>◌}

-- The calls; `path` stands for the string that it is, and madvise is called with errno set to 0.
pub data Event : Type 0 where
  open_file : (path : ℕ) → Event
  write : (fd : ℤ) → (len : ℕ) → Event
  fstat : (fd : ℤ) → Event
  mmap : (len : ℕ) → (fd : ℤ) → Event
  madvise : (addr : ℤ) → (len : ℕ) → (advise_flags : ℤ) → Event
  munmap : (addr : ℤ) → (len : ℕ) → Event
  close : (fd : ℤ) → Event

-- What a call returns, errno after it, and st_size after fstat.
pub record Answer : Type 0 where
  pub ret : ℤ
  pub errno : ℤ
  pub st_size : ℕ

-- What ends a run before its `return NULL`: a failing assert, or a read through a null pointer.
pub data Message : Type 0 where
  invalid_argument file_open_error write_failed stat_error mmap_error madvise_error : Message
  unexpected_error munmap_error invalid_f_option invalid_tp_number null_pointer : Message

-- tp_assert, and what follows it.
abbrev pub assert_then : Bool → Message → Proc Event (Option Message) → Proc Event (Option Message)
assert_then ok m next = if ok then next else pure (some m)

abbrev pub not_minus_one : Answer → Bool
not_minus_one a = if is_minus_one a.ret then false else true

-- The length of `str_for_file`.
abbrev pub str_len : ℕ
str_len = 32

module _ (env : Env Event Answer) where
  unfoldable pub write_file :
      (fd : ℤ) → (left : ℕ) → Proc Event (Option Message) → Proc Event (Option Message)
  write_file fd zero next = next
  write_file fd (suc left) next = call env (write fd str_len) >>= λ a.
      assert_then (not_minus_one a) write_failed (write_file fd left next)

  unfoldable pub advise :
      (fd addr : ℤ) → (size : ℕ) → (flags result error : ℤ) → Proc Event (Option Message)
  advise fd addr size flags result error = call env (madvise addr size flags) >>= λ a.
      assert_then (eq_ℤ a.ret result) madvise_error (
        assert_then (eq_ℤ a.errno error) unexpected_error (
          call env (munmap addr size) >>= λ u.
          assert_then (not_minus_one u) munmap_error (call env (close fd) >> pure none)))

  unfoldable pub map_file : (fd : ℤ) → (flags result error : ℤ) → Proc Event (Option Message)
  map_file fd flags result error = call env (fstat fd) >>= λ s.
      assert_then (not_minus_one s) stat_error (
        call env (mmap s.st_size fd) >>= λ m.
        assert_then (not_minus_one m) mmap_error (advise fd m.ret s.st_size flags result error))

  unfoldable pub madvise_simple :
      (path : Option ℕ) → (flags result error : ℤ) → Proc Event (Option Message)
  madvise_simple none flags result error = pure (some invalid_argument)
  madvise_simple (some path) flags result error = call env (open_file path) >>= λ f.
      assert_then (not_minus_one f) file_open_error
        (write_file f.ret 1280 (map_file f.ret flags result error))

-- An option that getopt gives: -f with its argument, or another.
pub data Opt : Type 0 where
  file : (optarg : ℕ) → Opt
  unknown : Opt

-- The loop over the options, from the `file` so far; `none` is the null pointer.
unfoldable pub parse_opts : (file : Option ℕ) → List Opt → Option (Option ℕ)
parse_opts f [] = some f
parse_opts f (file optarg ∷ opts) = parse_opts (some optarg) opts
parse_opts f (unknown ∷ opts) = none

unfoldable pub madvise_parse_args : List Opt → Option (Option ℕ)
madvise_parse_args opts = parse_opts none opts

pub record Param : Type 0 where
  pub advise_flags : ℤ
  pub expect_result : ℤ
  pub expect_error : ℤ

abbrev pub param : (advise_flags expect_result expect_error : ℤ) → Param
param flags result error = record {
  advise_flags = flags;
  expect_result = result;
  expect_error = error;
}

-- The advice of Linux by number, MADV_DONTNEED to MADV_SOFT_OFFLINE in the order of the file.
abbrev pub madvise000_params : List Param
madvise000_params =
    param (pos 4) (pos 0) (pos 0)
    ∷ param (pos 0) (pos 0) (pos 0)
    ∷ param (pos 1) (pos 0) (pos 0)
    ∷ param (pos 2) (pos 0) (pos 0)
    ∷ param (pos 3) (pos 0) (pos 0)
    ∷ param (pos 9) (negsuc 0) (pos 13)
    ∷ param (pos 10) (pos 0) (pos 0)
    ∷ param (pos 11) (pos 0) (pos 0)
    ∷ param (pos 17) (pos 0) (pos 0)
    ∷ param (pos 16) (pos 0) (pos 0)
    ∷ param (pos 12) (negsuc 0) (pos 22)
    ∷ param (pos 13) (negsuc 0) (pos 22)
    ∷ param (pos 14) (negsuc 0) (pos 22)
    ∷ param (pos 15) (negsuc 0) (pos 22)
    ∷ param (pos 100) (negsuc 0) (pos 1)
    ∷ param (pos 101) (negsuc 0) (pos 1)
    ∷ param (negsuc 0) (negsuc 0) (negsuc 0)
    ∷ param (negsuc 0) (negsuc 0) (negsuc 0)
    ∷ []

-- RUN_FUNC of 000.c.
module _ (env : Env Event Answer) where
  unfoldable pub with_param : (path : Option ℕ) → Option Param → Proc Event (Option Message)
  with_param path none = pure (some invalid_tp_number)
  with_param path (some p) = madvise_simple env path p.advise_flags p.expect_result p.expect_error

  unfoldable pub run_000 : (args : Option (Option ℕ)) → (tc_num : ℤ) → Proc Event (Option Message)
  run_000 none tc_num = pure (some null_pointer)
  run_000 (some none) tc_num = pure (some invalid_f_option)
  run_000 (some (some path)) (negsuc n) = pure (some invalid_tp_number)
  run_000 (some (some path)) (pos n) = with_param (some path) (get_elem? madvise000_params n)
