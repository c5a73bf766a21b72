-- ===== src/Ptrace/Inspect.antt =====
-- The functions that only look at the child, and the removal of the brk instruction.
use mckernel_ostest_arm.Base.{
  ℕ, ◌-◌, ◌^◌, ◌≡◌, ◌≢◌, ◌↔◌, ◌⊎◌, inl, inr, refl, List, ◌∷◌, true, ◌==◌, arith, Bool-cases, ==_iff,
  if◌then◌else◌,
}
use mckernel_ostest_arm.Base.Int.{pos, negsuc, is_zero}
use mckernel_ostest_arm.Base.Trace.{Env}
use mckernel_ostest_arm.Ptrace.Calls.{
  Call, get_gregs, get_fregs, get_tls, get_system_call, get_hw, hw_break, hw_watch, peekdata,
  poketext, Reply,
}
use mckernel_ostest_arm.Ptrace.Regset.{
  check_all, getregset_check, check_trap_addr, get_check_syscallno, rewrite_brk_inst, two_nops,
}
use mckernel_ostest_arm.Ptrace.Tracee.{Tracee, after, Working}

verdict_iff : (a b : ℕ) → ((if a == b then pos 0 else negsuc 0) ≡ pos 0) ↔ (a ≡ b)
verdict_iff a b = elim (Bool-cases (a == b)) [
  | inl same ↦ let e = (==_iff a b).0 same in rw same (λ _. e, λ _. refl)
  | inr other ↦ rw other (λ z. cc, λ e. absurd (ground arith))
]

module _ (env : Env Call Reply) (t : Tracee) (h : List Call) where
  inspections_only_read :
      (addr expno : ℕ)
      → (after t (getregset_check env h).1 ≡ after t h)
        × (after t (check_trap_addr env addr h).1 ≡ after t h)
        × (after t (get_check_syscallno env expno h).1 ≡ after t h)
  unfolding getregset_check check_all check_trap_addr get_check_syscallno
  inspections_only_read addr expno = (ground arith, ground arith, ground arith)

  -- On a child whose requests work, getregset_check returns 0, check_trap_addr returns 0 exactly when
  -- the program counter is the address, and get_check_syscallno exactly when the system call number is
  -- the expected one. None of them changes the child's registers.
  pub inspections_iff :
      (addr expno : ℕ)
      → Working env t
      → ((getregset_check env h).0 ≡ pos 0)
        × (((check_trap_addr env addr h).0 ≡ pos 0) ↔ ((after t h).gregs.pc ≡ addr))
        × (((get_check_syscallno env expno h).0 ≡ pos 0) ↔ ((after t h).sysno ≡ expno))
        × (after t (getregset_check env h).1 ≡ after t h)
        × (after t (check_trap_addr env addr h).1 ≡ after t h)
        × (after t (get_check_syscallno env expno h).1 ≡ after t h)
  unfolding getregset_check check_all check_trap_addr get_check_syscallno
  inspections_iff addr expno works =
      let unread = inspections_only_read addr expno in
      let h1 = get_gregs ∷ h in
      let h2 = get_fregs ∷ h1 in
      let h3 = get_tls ∷ h2 in
      let h4 = get_hw hw_break ∷ h3 in
      let h5 = get_hw hw_watch ∷ h4 in
      let sys = works.succeeds h get_system_call in
      (
        rw (works.succeeds h get_gregs, works.succeeds h1 get_fregs, works.succeeds h2 get_tls)
            (rw
              (
                works.succeeds h3 (get_hw hw_break),
                works.succeeds h4 (get_hw hw_watch),
                works.succeeds h5 get_system_call,
              )
              refl),
        rw (works.succeeds h get_gregs, works.reads_gregs h)
            (verdict_iff (after t h).gregs.pc addr),
        rw (sys, works.reads_sysno h) (verdict_iff (after t h).sysno expno),
        unread.0,
        unread.1,
        unread.2,
      )

-- rewrite_brk_inst writes the two NOPs at the address that the child keeps at `inst_addr`, and
-- nothing if it could not read that address; it returns 0 exactly when the write succeeds.
pub rewrite_brk_inst_lem :
    (env : Env Call Reply) (inst_addr : ℕ) (h : List Call)
    → let peek = env h (peekdata inst_addr) in
      let (ret, h') = rewrite_brk_inst env inst_addr h in
      ((peek.word ≡ 2 ^ 64 - 1)
        × (peek.errno ≢ 0)
        × (ret ≡ negsuc 0)
        × (h' ≡ peekdata inst_addr ∷ h))
      ⊎ ((h' ≡ poketext peek.word two_nops ∷ peekdata inst_addr ∷ h)
          × ((ret ≡ pos 0)
              ↔ (is_zero (env (peekdata inst_addr ∷ h) (poketext peek.word two_nops)).ret ≡ true)))
unfolding rewrite_brk_inst
rewrite_brk_inst_lem env inst_addr h = ground arith
