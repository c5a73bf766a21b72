-- ===== src/PtraceCases/World.antt =====
-- A child to try the test cases on, whose stops, registers and text are as the test cases expect them.
use mathlib.Core.Path.{fun_ext}
use mckernel_ostest_arm.Base.{
  ℕ, suc, ◌+◌, ◌%◌, ◌^◌, ◌≡◌, refl, List, [], ◌∷◌, ◌++◌, map, Bool, true, false, ◌&&◌, replicate,
  leb, ◌==◌, if◌then◌else◌, arith,
}
use mckernel_ostest_arm.Base.Int.{ℤ, pos}
use mckernel_ostest_arm.Base.Trace.{Env}
use mckernel_ostest_arm.Ptrace.Calls.{Call, HwDebug, get_tls, get_system_call, get_hw, peekdata}
use mckernel_ostest_arm.Ptrace.Tracee.{Tracee, after, step, debug_of}
use mckernel_ostest_arm.Ptrace.Control.{no_point}
use mckernel_ostest_arm.PtraceCases.Events.{
  Siginfo, Status, Event, Answer, request, peektext, set_siginfo, single_step, cont, trap_hwbkpt,
  fork, wait, waitpid,
}
use mckernel_ostest_arm.PtraceCases.Flow.{Vars}
use mckernel_ostest_arm.PtraceCases.Verdict.Texts.{text_step, text_after}
use mckernel_ostest_arm.PtraceCases.Verdict.Points.{Registers}
use mckernel_ostest_arm.Ptrace.Regset.{two_nops}

abbrev pub vars : Vars
vars = record { inst_addr = 100; addr = 108; buf = 116; regno0 = 124; regno1 = 132; eventpid = 140 }

-- The words that the child keeps: where its brk instruction and its NOP are.
abbrev pub data_at : ℕ → ℕ
data_at a = if a == 100 then 4096 else 8192

abbrev pub debug : HwDebug
debug = record { dbg_info = 4; dbg_regs = replicate 16 no_point }

abbrev pub idle : Tracee
idle = record {
  gregs = record { regs = 9 ∷ 9 ∷ 2 ∷ replicate 28 99; sp = 0; pc = 8192; pstate = 0 };
  fregs = record { vregs = replicate 32 0; fpsr = 0; fpcr = 0 };
  tls = 77;
  sysno = 172;
  breaks = debug;
  watches = debug;
}

-- Its registers, its text and its siginfo after a history; a single step traps an instruction on.
abbrev pub regs_step : Event → Tracee → Tracee
regs_step (request c) t = step c t
regs_step e t = t

abbrev pub regs : List Event → Tracee
regs [] = idle
regs (e ∷ h) = regs_step e (regs h)

abbrev pub trap_at : (code addr : ℕ) → Siginfo
trap_at code addr = record {
  si_signo = pos 5;
  si_errno = pos 0;
  si_code = pos code;
  si_addr = addr;
}

abbrev pub info_step : Event → Siginfo → Siginfo
info_step (set_siginfo i) now = i
info_step single_step now = trap_at trap_hwbkpt ((now.si_addr + 4) % 2 ^ 64)
info_step e now = now

abbrev pub info : Siginfo → List Event → Siginfo
info first [] = first
info first (e ∷ h) = info_step e (info first h)

abbrev pub conts : List Event → ℕ
conts [] = 0
conts (cont ∷ h) = suc (conts h)
conts (e ∷ h) = conts h

-- The status of a wait: the child ends, if at all, when it has been continued twice.
abbrev pub status : (ends : Bool) → List Event → Status
status ends h =
    let over = ends && leb 2 (conts h) in
    record {
      wifstopped = if over then false else true;
      wstopsig = 5;
      wifexited = over;
      wexitstatus = 0;
      wifsignaled = false;
      wtermsig = 0;
    }

abbrev pub word_of : Event → Tracee → ℕ
word_of (request get_tls) t = t.tls
word_of (request get_system_call) t = t.sysno
word_of (request (peekdata a)) t = data_at a
word_of e t = 0

abbrev pub hw_of : Event → Tracee → HwDebug
hw_of (request (get_hw k)) t = debug_of k t
hw_of e t = debug

-- The text is a function; a word is written as a whole.
abbrev pub Text : Type 0
Text = ℕ → ℕ

abbrev pub peek : Text → ℕ → ℕ
peek t a = t a

abbrev pub poke : Text → ℕ → ℕ → Text
poke t a w = λ b. if a == b then w else t b

pub write_back : (t : Text) (a w : ℕ) → poke (poke t a w) a (peek t a) ≡ t
write_back t a w = fun_ext λ b. ground arith

abbrev pub nops : Text
nops a = two_nops

abbrev pub text : List Event → Text
text [] = nops
text (e ∷ h) = text_step poke e true (text h)

abbrev pub text_word : Event → Text → ℕ
text_word (peektext a) t = peek t a
text_word e t = 0

abbrev pub ret_of : Event → ℤ
ret_of fork = pos 7
ret_of wait = pos 7
ret_of (waitpid p) = pos 7
ret_of e = pos 0

abbrev pub answers : (ends : Bool) → (first : Siginfo) → Env Event Answer
answers ends first h e = record {
  ret = ret_of e;
  errno = 0;
  word = text_word e (text h);
  info = info first h;
  status = status ends h;
  reply = record {
    ret = pos 0;
    errno = 0;
    gregs = (regs h).gregs;
    fregs = (regs h).fregs;
    word = word_of e (regs h);
    hw = hw_of e (regs h);
  };
}

module _ (ends : Bool) (first : Siginfo) where
  text_after-text :
      (h : List Event) → text_after peek poke write_back (answers ends first) nops h ≡ text h
  text_after-text [] = refl
  text_after-text (e ∷ h) = rw (text_after-text h) refl

  pub reads :
      (h : List Event) (a : ℕ)
      → (answers ends first h (peektext a)).word
        ≡ peek (text_after peek poke write_back (answers ends first) nops h) a
  reads h a = rw (text_after-text h) refl

  carries :
      (h : List Event) (calls : List Call) → regs (map request calls ++ h) ≡ after (regs h) calls
  carries h [] = refl
  carries h (c ∷ calls) = rw (carries h calls) refl

  pub registers : Registers (answers ends first) regs
  registers = record {
    works = λ h. record {
      succeeds = λ calls c. refl;
      reads_gregs = λ calls. rw (carries h calls) refl;
      reads_fregs = λ calls. rw (carries h calls) refl;
      reads_tls = λ calls. rw (carries h calls) refl;
      reads_sysno = λ calls. rw (carries h calls) refl;
      reads_hw = λ calls k. rw (carries h calls) refl;
    };
    carries = carries;
  }
