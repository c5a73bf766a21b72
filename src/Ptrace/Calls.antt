-- ===== src/Ptrace/Calls.antt =====
-- The ptrace requests of arch_test_ptrace.c and the register sets that they transfer. ptrace is
-- answered by an environment; dumps and messages are left out.
use mckernel_ostest_arm.Base.{ℕ, List}
use mckernel_ostest_arm.Base.Int.{ℤ}

-- `struct user_pt_regs`: the 31 registers, each with 64 bits.
pub record Gregs : Type 0 where
  pub regs : List ℕ
  pub sp : ℕ
  pub pc : ℕ
  pub pstate : ℕ

-- `struct user_fpsimd_state`: the 32 registers, each with 128 bits.
pub record Fregs : Type 0 where
  pub vregs : List ℕ
  pub fpsr : ℕ
  pub fpcr : ℕ

-- An element of `dbg_regs`, and `struct user_hwdebug_state` with its 16 elements.
pub record DbgReg : Type 0 where
  pub addr : ℕ
  pub ctrl : ℕ

pub record HwDebug : Type 0 where
  pub dbg_info : ℕ
  pub dbg_regs : List DbgReg

-- The two register sets of the debug unit.
pub data Hw : Type 0 where
  hw_break hw_watch : Hw

pub data Call : Type 0 where
  get_gregs get_fregs get_tls get_system_call : Call
  get_hw : Hw → Call
  set_gregs : Gregs → Call
  set_fregs : Fregs → Call
  set_tls : ℕ → Call
  set_system_call : ℕ → Call
  set_hw : Hw → (iov_len : ℕ) → HwDebug → Call
  peekdata : ℕ → Call
  poketext : (addr word : ℕ) → Call

-- What a request returns, errno after it, and what it stores: for each request its own field.
pub record Reply : Type 0 where
  pub ret : ℤ
  pub errno : ℕ
  pub gregs : Gregs
  pub fregs : Fregs
  pub word : ℕ
  pub hw : HwDebug
