-- ===== src/PtraceCases/Verdict/Points.antt =====
-- What 011.c and 012.c leave in the debug registers of the child.
use mckernel_ostest_arm.Base.{ℕ, ◌≡◌, ◌≤◌, ◌∙◌, List, [], ◌∷◌, ◌++◌, map, true, length, arith}
use mckernel_ostest_arm.Base.Int.{ℤ, pos, is_zero}
use mckernel_ostest_arm.Base.Trace.{Env}
use mckernel_ostest_arm.Ptrace.Calls.{Call, peekdata}
use mckernel_ostest_arm.Ptrace.Regset.{check_trap_addr}
use mckernel_ostest_arm.Ptrace.Debug.{
  set_hw_watchpt, clear_hw_watchpt, set_hw_breakpt, clear_hw_breakpt,
}
use mckernel_ostest_arm.Ptrace.Tracee.{Tracee, after, Working}
use mckernel_ostest_arm.Ptrace.Control.{num_reg, cleared, clear_hw_points}
use mckernel_ostest_arm.Ptrace.Inspect.{inspections_iff}
use mckernel_ostest_arm.PtraceCases.Events.{
  Event, Answer, request, requests_on, checked, wait, cont, get_siginfo, trap_hwbkpt,
}
use mckernel_ostest_arm.PtraceCases.Flow.{Vars}
use mckernel_ostest_arm.PtraceCases.Traps.{body_011, parent_011, body_012, parent_012}
use mckernel_ostest_arm.PtraceCases.Verdict.{
  Ends, Ends-if, Ends-or_cont, Ends-continue_child, Ends-at_trap, IsTrap, rewritten,
  trace_child-IsDone,
}
use mckernel_ostest_arm.PtraceCases.Verdict.Texts.{not-false}

-- What the two test cases rely on the requests for: `child` is the state of the child's registers
-- after a history. They may change in any way while it runs.
pub record Registers (env : Env Event Answer) (child : List Event → Tracee) : Type 0 where
  pub works : (h : List Event) → Working (requests_on env h) (child h)
  pub carries :
      (h : List Event) (calls : List Call) → child (map request calls ++ h) ≡ after (child h) calls

-- Both sets of debug registers hold as many as dbg_info states.
abbrev pub HasRoom : Tracee → Type 0
HasRoom t =
    (num_reg t.watches ≤ length t.watches.dbg_regs) × (num_reg t.breaks ≤ length t.breaks.dbg_regs)

pub is_zero-pos : (z : ℤ) → is_zero z ≡ true → z ≡ pos 0
is_zero-pos (pos n) e = ground arith
is_zero-pos (ℤ.negsuc n) e = absurd (ground arith)

module _ (env : Env Event Answer) (child : List Event → Tracee) (regs : Registers env child) where
  watchpt-cleared :
      (h : List Event)
      → HasRoom (child h)
      → child (checked env clear_hw_watchpt h).1
        ≡ record (child h) { watches = cleared (child h).watches }
  watchpt-cleared h (le1, le2) =
      let clears = clear_hw_points (requests_on env h) (child h) (regs.works h) [] le1 le2 in
      regs.carries h (clear_hw_watchpt (requests_on env h) []).1 ∙ clears.1

  breakpt-cleared :
      (h : List Event)
      → HasRoom (child h)
      → child (checked env clear_hw_breakpt h).1
        ≡ record (child h) { breaks = cleared (child h).breaks }
  breakpt-cleared h (le1, le2) =
      let clears = clear_hw_points (requests_on env h) (child h) (regs.works h) [] le1 le2 in
      regs.carries h (clear_hw_breakpt (requests_on env h) []).1 ∙ clears.3

  -- check_trap_addr changes nothing, and 0 is its answer for the address where the child is.
  check_trap_addr-at :
      (h : List Event) (addr : ℕ)
      → let (ret, h') = checked env (λ on. check_trap_addr on addr) h in
        is_zero ret ≡ true → (child h' ≡ child h) × ((child h).gregs.pc ≡ addr)
  check_trap_addr-at h addr ok =
      let on = requests_on env h in
      let seen = inspections_iff on (child h) [] addr 0 (regs.works h) in
      let (ret, calls) = check_trap_addr on addr [] in
      (regs.carries h calls ∙ seen.4, seen.1.0 (is_zero-pos ret ok))

  module _ (v : Vars) (cpid : ℤ) where
    -- The address of the instruction, as the child keeps it after the history `start`.
    abbrev pub instruction : (start : List Event) → ℕ
    instruction start = (env start (request (peekdata v.addr))).reply.word

    -- The watchpoint on `buf` has stopped the child at its store instruction, with the state that it
    -- has after `before`, and after `h` only the watchpoints are different, which are cleared.
    abbrev pub IsWatched : (start h : List Event) → Type 0
    IsWatched start h =
        (at : List Event) × (before : List Event) × IsTrap env cpid trap_hwbkpt v.buf at
        × ((child before).gregs.pc ≡ instruction start)
        × (child h ≡ record (child before) { watches = cleared (child before).watches })

    -- The histories at which the debug registers are cleared.
    abbrev pub stop_012 : (start : List Event) → List Event
    stop_012 start =
        get_siginfo
        ∷ wait
        ∷ cont
        ∷ (checked env (λ on. set_hw_breakpt on (instruction start))
            (request (peekdata v.addr) ∷ start)).1

    abbrev pub stop_011 : (start : List Event) → List Event
    stop_011 start =
        (checked env (λ on. check_trap_addr on (instruction start))
          (get_siginfo
            ∷ wait
            ∷ cont
            ∷ (checked env (λ on. set_hw_watchpt on v.buf)
                (request (peekdata v.addr) ∷ start)).1)).1

    body_011-Ends :
        (h : List Event)
        → HasRoom (child (stop_011 h))
        → Ends env (IsWatched h) (body_011 env v cpid h)
    unfolding body_011
    body_011-Ends h room =
        let a = instruction h in
        let h1 = request (peekdata v.addr) ∷ h in
        let h2 = (checked env (λ on. set_hw_watchpt on v.buf) h1).1 in
        let h3 = get_siginfo ∷ wait ∷ cont ∷ h2 in
        let h4 = (checked env (λ on. check_trap_addr on a) h3).1 in
        Ends-or_cont env (IsWatched h) _ _ h1 λ _. Ends-or_cont env (IsWatched h) _ _ h2 λ _.
          Ends-continue_child env (IsWatched h) _ h2 λ _.
            Ends-at_trap env (IsWatched h) cpid trap_hwbkpt v.buf _ (cont ∷ h2) λ trap.
              Ends-or_cont env (IsWatched h) _ _ h4 λ here.
                Ends-if env (IsWatched h) _ (checked env clear_hw_watchpt h4).1 λ done.
                  let (same, at) = check_trap_addr-at h3 a (not-false _ here) in
                  (cont ∷ h2, h4, trap, rw same at, watchpt-cleared h4 room)

    -- On a child whose requests work, and whose debug registers are as many as dbg_info states when
    -- they are cleared: if parent_func of 011.c returns 0, a watchpoint on `buf` stopped the child
    -- at its store instruction, and it is continued last of all with all supported watchpoints
    -- cleared and nothing else changed.
    pub parent_011-clears :
        (start : List Event)
        → HasRoom (child (stop_011 (rewritten env v start)))
        → (parent_011 env v cpid start).0 ≡ pos 0
        → (h : List Event) × IsWatched (rewritten env v start) h
          × ((parent_011 env v cpid start).1 ≡ cont ∷ h)
          × (is_zero (env h cont).ret ≡ true)
    unfolding parent_011
    parent_011-clears start room =
        trace_child-IsDone env (IsWatched (rewritten env v start)) v cpid (body_011 env v cpid)
          start (λ _. body_011-Ends (rewritten env v start) room)

    abbrev pub IsBroken : (start h : List Event) → Type 0
    IsBroken start h =
        (at : List Event) × (before : List Event) × IsTrap env cpid trap_hwbkpt (instruction start)
          at
        × (child h ≡ record (child before) { breaks = cleared (child before).breaks })

    body_012-Ends :
        (h : List Event)
        → HasRoom (child (stop_012 h))
        → Ends env (IsBroken h) (body_012 env v cpid h)
    unfolding body_012
    body_012-Ends h room =
        let a = instruction h in
        let h1 = request (peekdata v.addr) ∷ h in
        let h2 = (checked env (λ on. set_hw_breakpt on a) h1).1 in
        let h3 = get_siginfo ∷ wait ∷ cont ∷ h2 in
        Ends-or_cont env (IsBroken h) _ _ h1 λ _. Ends-or_cont env (IsBroken h) _ _ h2 λ _.
          Ends-continue_child env (IsBroken h) _ h2 λ _.
            Ends-at_trap env (IsBroken h) cpid trap_hwbkpt a _ (cont ∷ h2) λ trap.
              Ends-if env (IsBroken h) _ (checked env clear_hw_breakpt h3).1
                λ done. (cont ∷ h2, h3, trap, breakpt-cleared h3 room)

    -- On a child whose requests work, and whose debug registers are as many as dbg_info states when
    -- they are cleared: if parent_func of 012.c returns 0, a breakpoint stopped the child at its
    -- instruction, and it is continued last of all with all supported breakpoints cleared and
    -- nothing else changed.
    pub parent_012-clears :
        (start : List Event)
        → HasRoom (child (stop_012 (rewritten env v start)))
        → (parent_012 env v cpid start).0 ≡ pos 0
        → (h : List Event) × IsBroken (rewritten env v start) h
          × ((parent_012 env v cpid start).1 ≡ cont ∷ h)
          × (is_zero (env h cont).ret ≡ true)
    unfolding parent_012
    parent_012-clears start room =
        trace_child-IsDone env (IsBroken (rewritten env v start)) v cpid (body_012 env v cpid) start
          (λ _. body_012-Ends (rewritten env v start) room)
