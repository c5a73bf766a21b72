-- ===== src/Ptrace/Control.antt =====
-- What the watchpoint and breakpoint functions leave in the child.
use mckernel_ostest_arm.Base.{
  ℕ, zero, suc, ◌-◌, ◌/◌, ◌%◌, ◌^◌, ◌<◌, ◌≤◌, ◌≡◌, refl, List, [], ◌∷◌, ◌++◌, length, replicate,
  take, drop, take-append-drop, set, arith,
}
use mckernel_ostest_arm.Base.Int.{pos}
use mckernel_ostest_arm.Base.Trace.{Env}
use mckernel_ostest_arm.Ptrace.Calls.{DbgReg, HwDebug, Hw, hw_break, hw_watch, Call, get_hw, Reply}
use mckernel_ostest_arm.Ptrace.Debug.{
  iov_len, watch_ctrl, break_ctrl, all_clear, set_hw_pt, clear_hw_pt, set_hw_watchpt,
  clear_hw_watchpt, set_hw_breakpt, clear_hw_breakpt,
}
use mckernel_ostest_arm.Ptrace.Tracee.{Tracee, after, debug_of, with_debug, Working}

abbrev pub no_point : DbgReg
no_point = record { addr = 0; ctrl = 0 }

all_clear-take :
    (n : ℕ) (regs : List DbgReg)
    → n ≤ length regs
    → take n (all_clear n regs) ++ drop n regs ≡ replicate n no_point ++ drop n regs
unfolding all_clear
all_clear-take zero regs le = refl
all_clear-take (suc n) [] le = elim le [ ]
all_clear-take (suc n) (r ∷ regs) le = rw (all_clear-take n regs (omega arith))

covered : (n : ℕ) → (iov_len n - 8) / 16 ≡ n
covered n = omega arith

-- The number of registers that dbg_info states.
abbrev pub num_reg : HwDebug → ℕ
num_reg hw = hw.dbg_info % 2 ^ 8

-- The debug registers with all of the supported ones cleared, and with the first one set.
abbrev pub cleared : HwDebug → HwDebug
cleared hw = record hw {
  dbg_regs = replicate (num_reg hw) no_point ++ drop (num_reg hw) hw.dbg_regs;
}

abbrev pub pointed : (ctrl addr : ℕ) → HwDebug → HwDebug
pointed ctrl addr hw = record hw {
  dbg_regs = set hw.dbg_regs 0 (record { addr = addr; ctrl = ctrl });
}

set-take :
    (n : ℕ) (regs : List DbgReg) (r : DbgReg)
    → 0 < n
    → take n (set regs 0 r) ++ drop n regs ≡ set regs 0 r
set-take zero regs r lt = elim lt [ ]
set-take (suc n) [] r lt = refl
set-take (suc n) (x ∷ regs) r lt = rw (take-append-drop n regs)

module _ (env : Env Call Reply) (t : Tracee) (works : Working env t) (h : List Call) where
  clear_hw_pt_lem :
      (k : Hw)
      → num_reg (debug_of k (after t h)) ≤ length (debug_of k (after t h)).dbg_regs
      → let (ret, h') = clear_hw_pt env k h in
        (ret ≡ pos 0) × (after t h' ≡ with_debug k (cleared (debug_of k (after t h))) (after t h))
  unfolding clear_hw_pt
  clear_hw_pt_lem k le =
      let now = debug_of k (after t h) in
      rw (works.succeeds h (get_hw k), works.reads_hw h k)
        (rw (works.succeeds (get_hw k ∷ h) _)
          (refl, rw (covered (num_reg now), all_clear-take (num_reg now) now.dbg_regs le)))

  set_hw_pt_lem :
      (k : Hw) (ctrl addr : ℕ)
      → 0 < num_reg (debug_of k (after t h))
      → let (ret, h') = set_hw_pt env k ctrl addr h in
        (ret ≡ pos 0)
        × (after t h' ≡ with_debug k (pointed ctrl addr (debug_of k (after t h))) (after t h))
  unfolding set_hw_pt
  set_hw_pt_lem k ctrl addr lt =
      let now = debug_of k (after t h) in
      rw (works.succeeds h (get_hw k), works.reads_hw h k)
        (rw (works.succeeds (get_hw k ∷ h) _) (
          refl,
          rw (
            covered (num_reg now),
            set-take (num_reg now) now.dbg_regs (record { addr = addr; ctrl = ctrl }) lt,
          ),
        ))

  -- On a child whose requests work, and whose two sets of debug registers hold as many as dbg_info
  -- states, clear_hw_watchpt and clear_hw_breakpt return 0, clear all of the supported registers of
  -- their set, and change nothing else in the child.
  pub clear_hw_points :
      num_reg (after t h).watches ≤ length (after t h).watches.dbg_regs
      → num_reg (after t h).breaks ≤ length (after t h).breaks.dbg_regs
      → let now = after t h in
        let (watch, h1) = clear_hw_watchpt env h in
        let (brk, h2) = clear_hw_breakpt env h in
        (watch ≡ pos 0)
        × (after t h1 ≡ record now { watches = cleared now.watches })
        × (brk ≡ pos 0)
        × (after t h2 ≡ record now { breaks = cleared now.breaks })
  unfolding clear_hw_watchpt clear_hw_breakpt
  clear_hw_points le1 le2 =
      let watch = clear_hw_pt_lem hw_watch le1 in
      let brk = clear_hw_pt_lem hw_break le2 in (watch.0, watch.1, brk.0, brk.1)

  -- On a child whose requests work, and of which both sets support a debug register, set_hw_watchpt
  -- and set_hw_breakpt return 0, put the address and the control word of their kind in the first
  -- register of their set, and change nothing else in the child.
  pub set_hw_points :
      (addr : ℕ)
      → 0 < num_reg (after t h).watches
      → 0 < num_reg (after t h).breaks
      → let now = after t h in
        let (watch, h1) = set_hw_watchpt env addr h in
        let (brk, h2) = set_hw_breakpt env addr h in
        (watch ≡ pos 0)
        × (after t h1 ≡ record now { watches = pointed watch_ctrl addr now.watches })
        × (brk ≡ pos 0)
        × (after t h2 ≡ record now { breaks = pointed break_ctrl addr now.breaks })
  unfolding set_hw_watchpt set_hw_breakpt
  set_hw_points addr lt1 lt2 =
      let watch = set_hw_pt_lem hw_watch watch_ctrl addr lt1 in
      let brk = set_hw_pt_lem hw_break break_ctrl addr lt2 in (watch.0, watch.1, brk.0, brk.1)
