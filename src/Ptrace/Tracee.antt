-- ===== src/Ptrace/Tracee.antt =====
-- What the checks rely on ptrace for: every request succeeds, and reads what was written last.
use mckernel_ostest_arm.Base.{ℕ, ◌-◌, ◌/◌, ◌≡◌, List, [], ◌∷◌, ◌++◌, true, take, drop}
use mckernel_ostest_arm.Base.Int.{is_zero}
use mckernel_ostest_arm.Base.Trace.{Env}
use mckernel_ostest_arm.Ptrace.Calls.{
  Gregs, Fregs, HwDebug, Hw, hw_break, hw_watch, Call, get_gregs, get_fregs, get_tls,
  get_system_call, get_hw, set_gregs, set_fregs, set_tls, set_system_call, set_hw, Reply,
}

-- The register sets of a stopped child.
pub record Tracee : Type 0 where
  pub gregs : Gregs
  pub fregs : Fregs
  pub tls : ℕ
  pub sysno : ℕ
  pub breaks : HwDebug
  pub watches : HwDebug

-- A write of `len` bytes replaces the registers that it covers, and not dbg_info, which is fixed.
abbrev pub rewrite : HwDebug → (len : ℕ) → HwDebug → HwDebug
rewrite old len new =
    let n = (len - 8) / 16 in
    record { dbg_info = old.dbg_info; dbg_regs = take n new.dbg_regs ++ drop n old.dbg_regs }

abbrev pub debug_of : Hw → Tracee → HwDebug
debug_of hw_break t = t.breaks
debug_of hw_watch t = t.watches

abbrev pub with_debug : Hw → HwDebug → Tracee → Tracee
with_debug hw_break hw t = record t { breaks = hw }
with_debug hw_watch hw t = record t { watches = hw }

abbrev pub step : Call → Tracee → Tracee
step (set_gregs g) t = record t { gregs = g }
step (set_fregs f) t = record t { fregs = f }
step (set_tls v) t = record t { tls = v }
step (set_system_call v) t = record t { sysno = v }
step (set_hw k len hw) t = with_debug k (rewrite (debug_of k t) len hw) t
step c t = t

-- The child after the requests of a history, newest first.
abbrev pub after : Tracee → List Call → Tracee
after t [] = t
after t (c ∷ h) = step c (after t h)

-- The requests on the child `t` behave as ptrace documents them.
pub record Working (env : Env Call Reply) (t : Tracee) : Type 0 where
  pub succeeds : (h : List Call) (c : Call) → is_zero (env h c).ret ≡ true
  pub reads_gregs : (h : List Call) → (env h get_gregs).gregs ≡ (after t h).gregs
  pub reads_fregs : (h : List Call) → (env h get_fregs).fregs ≡ (after t h).fregs
  pub reads_tls : (h : List Call) → (env h get_tls).word ≡ (after t h).tls
  pub reads_sysno : (h : List Call) → (env h get_system_call).word ≡ (after t h).sysno
  pub reads_hw : (h : List Call) (k : Hw) → (env h (get_hw k)).hw ≡ debug_of k (after t h)
