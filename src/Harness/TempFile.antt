-- ===== src/Harness/TempFile.antt =====
-- The temporary files of test_mck/src/test_mck.c: test_mck_create_temp_file and
-- test_mck_delete_temp_file.
pub mod Ownership
use mckernel_ostest_arm.Base.{
  ℕ, ◌+◌, ◌-◌, ◌%◌, ◌^◌, Bool, true, false, List, Option, none, some, ◌==◌, not, if◌then◌else◌,
}
use mckernel_ostest_arm.Base.Int.{ℤ, pos, negsuc, is_minus_one, is_zero}
use mckernel_ostest_arm.Base.Trace.{Env, Proc, pure, call, ◌>>=◌, ◌>>◌}

-- The calls, with the descriptors and pointers that they are given. The prefix of the path is the
-- caller's, and the text of the path is not followed.
pub data Call : Type 0 where
  asprintf : Call
  mkstemp : ℤ → Call
  lseek : ℤ → ℕ → Call
  write : ℤ → Call
  fsync : ℤ → Call
  close : ℤ → Call
  unlink : ℤ → Call
  free : ℤ → Call

-- What a call returns, and the pointer that asprintf stores in `path`.
pub record Reply : Type 0 where
  pub ret : ℤ
  pub ptr : ℤ

-- `state == -1` for an int `state`, to which the result of lseek is cut.
abbrev pub is_int_minus_one : ℤ → Bool
is_int_minus_one (pos n) = n % 2 ^ 32 == 2 ^ 32 - 1
is_int_minus_one (negsuc n) = n % 2 ^ 32 == 0

module _ (env : Env Call Reply) where
  -- The label `fail`.
  unfoldable pub free_path : (path : ℤ) → Proc Call ℤ
  free_path path = if is_zero path then pure (pos 0) else call env (free path) >> pure (pos 0)

  unfoldable pub fail : (path fd : ℤ) → Proc Call ℤ
  unfolding free_path
  fail path fd =
      if is_minus_one fd
      then free_path path
      else call env (close fd) >> (call env (unlink path) >> free_path path)

  -- The result is the pointer to the path, or NULL. `size - 1` is a size_t.
  unfoldable pub create_temp_file : (size : ℕ) → Proc Call ℤ
  unfolding fail
  create_temp_file size = do
    printed ← call env asprintf
    if is_minus_one printed.ret then fail printed.ptr (negsuc 0) else do
      let path = printed.ptr
      fd ← call env (mkstemp path)
      if is_minus_one fd.ret then fail path (negsuc 0) else do
        sought ← call env (lseek fd.ret ((size + 2 ^ 64 - 1) % 2 ^ 64))
        if is_int_minus_one sought.ret then fail path fd.ret else do
          call env (write fd.ret)
          call env (fsync fd.ret)
          call env (close fd.ret)
          pure path

  unfoldable pub delete_temp_file : (path : ℤ) → Proc Call (Unit {0})
  delete_temp_file path =
      if is_zero path then pure tt else call env (unlink path) >> (call env (free path) >> pure tt)
