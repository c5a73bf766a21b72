-- ===== src/LargePages.antt =====
-- lv14_large_pages/main.c: mapping large anonymous ranges, touching them and unmapping them. mmap,
-- munmap and the accesses are an environment's; printing is left out.
pub mod Access
mod Tests
use mckernel_ostest_arm.Base.{
  ℕ, zero, suc, ◌+◌, ◌-◌, ◌*◌, ◌%◌, ◌^◌, List, [], ◌∷◌, Bool, true, false, Option, none, some,
  get_elem?, if◌then◌else◌,
}
use mckernel_ostest_arm.Base.Int.{ℤ, pos, negsuc, is_minus_one, pos_part}
use mckernel_ostest_arm.Base.Trace.{Env, Proc, pure, call, ◌>>=◌, ◌>>◌}

pub data Mode : Type 0 where
  test_anon_null test_anon_read test_anon_write : Mode

-- `struct test_anon_arg`; `repeat` is not negative.
pub record Arg : Type 0 where
  pub len : ℕ
  pub prot : ℕ
  pub flag : ℕ
  pub repeat : ℕ
  pub mode : Mode
  pub rw_off : ℕ

pub data Call : Type 0 where
  mmap : (len prot flags : ℕ) → Call
  load : (addr : ℕ) → Call
  store : (addr byte : ℕ) → Call
  munmap : (addr len : ℕ) → Call

module _ (env : Env Call ℤ) where
  -- One round from the access on: whether the loop goes on.
  unfoldable pub access : Mode → (addr len print : ℕ) → Proc Call Bool
  access test_anon_read addr len print = do
    call env (load print)
    r ← call env (munmap addr len)
    pure (if is_minus_one r then false else true)
  access test_anon_write addr len print = do
    call env (store print b'Z')
    call env (load print)
    r ← call env (munmap addr len)
    pure (if is_minus_one r then false else true)
  access test_anon_null addr len print = do call env (munmap addr len); pure false

  -- The loop, with the rounds that are left.
  unfoldable pub rounds : (left : ℕ) → Arg → Proc Call ℤ
  rounds zero args = pure (pos 0)
  rounds (suc left) args = do
    addr ← call env (mmap args.len args.prot args.flag)
    let rest = rounds left args
    if is_minus_one addr then pure (negsuc 0) else do
      goes ← access args.mode (pos_part addr) args.len ((pos_part addr + args.rw_off) % 2 ^ 64)
      if goes then rest else pure (negsuc 0)

  unfoldable pub test_anon : Arg → Proc Call ℤ
  unfolding rounds
  test_anon args = rounds args.repeat args

-- main.h
abbrev pub task_unmapped_base : ℕ
task_unmapped_base = 0xFFFFFF7FC0000000

abbrev pub size_4mb : ℕ
size_4mb = 1024 * 1024 * 4

abbrev pub size_256mb : ℕ
size_256mb = 1024 * 1024 * 256

abbrev pub size_1gb : ℕ
size_1gb = 1024 * 1024 * 1024

-- ALIGN_UP for a power of two, on 64 bits
abbrev pub align_up : ℕ → ℕ → ℕ
align_up a b = (a + b - 1) % 2 ^ 64 - ((a + b - 1) % 2 ^ 64) % b

-- The length of the tests from test02 on.
abbrev pub aligned_len : ℕ → ℕ
aligned_len size = size + (align_up task_unmapped_base size - task_unmapped_base)

-- PROT_EXEC | PROT_READ | PROT_WRITE and MAP_PRIVATE | MAP_ANONYMOUS, and the last eight bytes
abbrev pub arg_of : (len repeat : ℕ) → Mode → Arg
arg_of len repeat mode = record {
  len = len;
  prot = 7;
  flag = 0x22;
  repeat = repeat;
  mode = mode;
  rw_off = len - 8;
}

abbrev pub args_00 : Arg
args_00 = arg_of size_4mb 1 test_anon_read

abbrev pub args_01 : Arg
args_01 = arg_of size_4mb 1 test_anon_write

abbrev pub args_02 : Arg
args_02 = arg_of (aligned_len size_256mb) 1 test_anon_read

abbrev pub args_03 : Arg
args_03 = arg_of (aligned_len size_1gb) 1 test_anon_read

abbrev pub args_04 : Arg
args_04 = arg_of (aligned_len size_1gb) 2 test_anon_read

abbrev pub args_05 : Arg
args_05 = arg_of (aligned_len size_1gb) 5 test_anon_read

-- `tests`
abbrev pub tests : List Arg
tests = args_00 ∷ args_01 ∷ args_02 ∷ args_03 ∷ args_04 ∷ args_05 ∷ []

module _ (env : Env Call ℤ) where
  unfoldable pub run_test : Option Arg → Proc Call ℤ
  unfolding test_anon
  run_test none = pure (negsuc 0)
  run_test (some args) = test_anon env args

  -- The number of the test, which may be negative.
  unfoldable pub select : ℤ → Proc Call ℤ
  unfolding run_test
  select (pos i) = run_test (get_elem? tests i)
  select (negsuc i) = pure (negsuc 0)

  -- The first clauses are `argc < 2`.
  unfoldable pub main : {A : Type 0} → (A → ℤ) → List A → Proc Call ℤ
  unfolding select
  main atoi [] = pure (negsuc 0)
  main atoi (name ∷ []) = pure (negsuc 0)
  main atoi (name ∷ i ∷ argv) = select (atoi i)
