-- ===== src/PtraceCases/Events.antt =====
-- The calls that the test cases of ptrace make, in the parent and in the child, and what the
-- environment answers. Words of memory are unsigned, with 64 bits; messages are left out.
use mckernel_ostest_arm.Base.{ℕ, ◌-◌, ◌^◌, List, [], ◌∷◌, ◌++◌, map, Bool}
use mckernel_ostest_arm.Base.Int.{ℤ}
use mckernel_ostest_arm.Base.Trace.{Env, Proc}
use mckernel_ostest_arm.Ptrace.Calls.{Call, Reply}

-- The fields of `siginfo_t` that the test cases use.
pub record Siginfo : Type 0 where
  pub si_signo : ℤ
  pub si_errno : ℤ
  pub si_code : ℤ
  pub si_addr : ℕ

-- What the macros of sys/wait.h, in lower case, say of a status.
pub record Status : Type 0 where
  pub wifstopped : Bool
  pub wstopsig : ℕ
  pub wifexited : Bool
  pub wexitstatus : ℕ
  pub wifsignaled : Bool
  pub wtermsig : ℕ

-- The two semaphores; `pwait` is the one that the parent waits for.
pub data Sem : Type 0 where
  pwait cwait : Sem

pub data Event : Type 0 where
  -- requests of ptrace on the child: those of arch_test_ptrace.c, and the others
  request : Call → Event
  peektext peekuser : (addr : ℕ) → Event
  pokedata pokeuser : (addr word : ℕ) → Event
  get_siginfo get_eventmsg : Event
  set_siginfo : Siginfo → Event
  set_options : ℕ → Event
  cont syscall_stop single_step ptrace_kill attach detach : Event
  -- the rest of the parent
  fork wait : Event
  waitpid : (pid : ℤ) → Event
  kill : (pid : ℤ) (sig : ℕ) → Event
  -- memory of the calling process: the word of a variable, and an assignment
  load : (addr : ℕ) → Event
  store : (addr word : ℕ) → Event
  mmap_sem munmap_sem sem_init sem_post sem_wait : Sem → Event
  -- the rest of the child: assembly, and calls
  traceme : Event
  get_inst_addr do_inst get_store_inst_addr do_store_inst : Event
  write_registers read_registers : Event
  brk : Event
  getpid : Event
  -- the pipe and the device of 021.c: the text in `addr` is the environment's
  pipe : Event
  read_pipe write_pipe close_pipe : Event
  strtoul : Event
  open_dev reset_dev mmap_dev clear_dev snprintf munmap_dev close_dev : Event
  sleep : ℕ → Event

-- What a call returns, errno after it, the word that it returns or stores, and the structures that
-- it stores: for each call its own fields.
pub record Answer : Type 0 where
  pub ret : ℤ
  pub errno : ℕ
  pub word : ℕ
  pub info : Siginfo
  pub status : Status
  pub reply : Reply

-- What a function of arch_test_ptrace.c sees of the environment after the events `h`.
abbrev pub requests_on : Env Event Answer → List Event → Env Call Reply
requests_on env h calls c = (env (map request calls ++ h) (request c)).reply

-- A function of arch_test_ptrace.c called from a test case.
abbrev pub checked : {A : Type 0} → Env Event Answer → (Env Call Reply → Proc Call A) → Proc Event A
checked env f h = let (a, calls) = f (requests_on env h) [] in (a, map request calls ++ h)

-- A request of arch_test_ptrace.c's kind, made by the test case itself.
abbrev pub ask : Env Event Answer → Call → Proc Event Reply
ask env c h = ((env h (request c)).reply, request c ∷ h)

-- -1 as an unsigned long
abbrev pub minus_one : ℕ
minus_one = 2 ^ 64 - 1

-- signal.h, errno.h and asm/unistd.h of arm64
abbrev pub sigkill : ℕ
sigkill = 9

abbrev pub sigtrap : ℕ
sigtrap = 5

abbrev pub sigstop : ℕ
sigstop = 19

abbrev pub trap_brkpt : ℕ
trap_brkpt = 1

abbrev pub trap_hwbkpt : ℕ
trap_hwbkpt = 4

abbrev pub eio : ℕ
eio = 5

abbrev pub einval : ℕ
einval = 22

abbrev pub nr_getpid : ℕ
nr_getpid = 172
