-- ===== src/Ptrace/Tests.antt =====
-- A child whose registers are read back as they were written.
use mckernel_ostest_arm.Base.{ℕ, ◌≡◌, refl, [], ◌∷◌, some, replicate, arith}
use mckernel_ostest_arm.Base.Int.{pos}
use mckernel_ostest_arm.Base.Trace.{Env}
use mckernel_ostest_arm.Ptrace.Calls.{HwDebug, Call, get_tls, get_system_call, get_hw, Reply}
use mckernel_ostest_arm.Ptrace.Regset.{setregset_check}
use mckernel_ostest_arm.Ptrace.Debug.{clear_hw_watchpt, clear_hw_breakpt}
use mckernel_ostest_arm.Ptrace.Tracee.{Tracee, after, debug_of, Working}
use mckernel_ostest_arm.Ptrace.Magic.{marked, setregset_check-marked}
use mckernel_ostest_arm.Ptrace.Control.{no_point, cleared, clear_hw_points}

abbrev debug : HwDebug
debug = record { dbg_info = 4; dbg_regs = replicate 16 no_point }

-- Register 2 alone holds its number if `second` is 2.
abbrev stopped : (second : ℕ) → Tracee
stopped second = record {
  gregs = record { regs = 9 ∷ 9 ∷ second ∷ replicate 28 99; sp = 0; pc = 4096; pstate = 0 };
  fregs = record { vregs = replicate 32 0; fpsr = 0; fpcr = 0 };
  tls = 77;
  sysno = 64;
  breaks = debug;
  watches = debug;
}

-- The word that a request reads.
abbrev word_of : Call → Tracee → ℕ
word_of get_tls t = t.tls
word_of get_system_call t = t.sysno
word_of c t = 0

abbrev hw_of : Call → Tracee → HwDebug
hw_of (get_hw k) t = debug_of k t
hw_of c t = debug

abbrev on : Tracee → Env Call Reply
on t h c = record {
  ret = pos 0;
  errno = 0;
  gregs = (after t h).gregs;
  fregs = (after t h).fregs;
  word = word_of c (after t h);
  hw = hw_of c (after t h);
}

on-Working : (t : Tracee) → Working (on t) t
on-Working t = record {
  succeeds = λ h c. refl;
  reads_gregs = λ h. refl;
  reads_fregs = λ h. refl;
  reads_tls = λ h. refl;
  reads_sysno = λ h. refl;
  reads_hw = λ h k. refl;
}

abbrev child : Tracee
child = stopped 2

setregset_check-marked_example :
    let (c, h') = setregset_check (on child) [] in
    (c ≡ record { ret = pos 0; gregno = some 2; fregno = some 16 })
    × (after child h' ≡ marked 2 child)
setregset_check-marked_example =
    setregset_check-marked (on child) child (on-Working child) [] 2 (omega arith) refl
      (λ j low high. ground arith)

clear_hw_points_example :
    let (watch, h1) = clear_hw_watchpt (on child) [] in
    let (brk, h2) = clear_hw_breakpt (on child) [] in
    (watch ≡ pos 0)
    × (after child h1 ≡ record child { watches = cleared debug })
    × (brk ≡ pos 0)
    × (after child h2 ≡ record child { breaks = cleared debug })
clear_hw_points_example =
    clear_hw_points (on child) child (on-Working child) [] (omega arith) (omega arith)
