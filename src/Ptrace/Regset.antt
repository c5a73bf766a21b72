-- ===== src/Ptrace/Regset.antt =====
-- getregset_check, setregset_check, setregset_child_check, check_trap_addr, get_check_syscallno and
-- rewrite_brk_inst of arch_test_ptrace.c.
use mckernel_ostest_arm.Base.{
  ℕ, zero, suc, ◌+◌, ◌-◌, ◌*◌, ◌^◌, List, [], ◌∷◌, Bool, false, ◌&&◌, not, Option, none, some, ◌==◌,
  get_or, set, if◌then◌else◌,
}
use mckernel_ostest_arm.Base.Int.{ℤ, pos, negsuc, is_zero}
use mckernel_ostest_arm.Base.Trace.{Env, Proc, pure, call, ◌>>=◌}
use mckernel_ostest_arm.Ptrace.Calls.{
  Gregs, Fregs, Call, get_gregs, get_fregs, get_tls, get_system_call, get_hw, hw_break, hw_watch,
  set_gregs, set_fregs, set_tls, set_system_call, peekdata, poketext, Reply,
}

-- `~x` in 64 and in 128 bits
abbrev pub not64 : ℕ → ℕ
not64 x = 2 ^ 64 - 1 - x

abbrev pub not128 : ℕ → ℕ
not128 x = 2 ^ 128 - 1 - x

-- The loop from register `left - 1` down for one that holds its own number.
unfoldable pub find_magic : (regs : List ℕ) → (left : ℕ) → Option ℕ
find_magic regs zero = none
find_magic regs (suc i) =
    let rest = find_magic regs i in if i == get_or regs i 0 then some i else rest

abbrev pub write_tls_val : ℕ
write_tls_val = 0x1234567890abcdef

-- An int, by its 32 bits.
abbrev pub write_sysno : ℕ
write_sysno = 0xfedcba09

-- NOP_INST twice
abbrev pub nop_inst : ℕ
nop_inst = 0xd503201f

abbrev pub two_nops : ℕ
two_nops = nop_inst * 2 ^ 32 + nop_inst

-- The result of setregset_check, and what it stored by then through `gregno` and `fregno`.
pub record Checked : Type 0 where
  pub ret : ℤ
  pub gregno : Option ℕ
  pub fregno : Option ℕ

module _ (env : Env Call Reply) where
  -- A request whose result is not 0 ends the function with -1.
  unfoldable pub check_all : List Call → Proc Call ℤ
  check_all [] = pure (pos 0)
  check_all (c ∷ calls) = do
    r ← call env c
    if is_zero r.ret then check_all calls else pure (negsuc 0)

  unfoldable pub getregset_check : Proc Call ℤ
  unfolding check_all
  getregset_check =
      check_all
        (get_gregs ∷ get_fregs ∷ get_tls ∷ get_hw hw_break ∷ get_hw hw_watch ∷ get_system_call ∷ [])

  -- The write of REGSET_GPR with the register that the search chose. `false` is `goto out`.
  unfoldable pub write_gregs : (i : Option ℕ) → Gregs → Proc Call Bool
  write_gregs none gregs = pure false
  write_gregs (some i) gregs = do
    w ← call env (set_gregs (record gregs { regs = set gregs.regs i (not64 i) }))
    pure (is_zero w.ret)

  unfoldable pub write_fregs : Fregs → Proc Call Bool
  write_fregs fregs = do
    w ← call env (set_fregs (record fregs { vregs = set fregs.vregs 16 (not128 16) }))
    pure (is_zero w.ret)

  -- The part of setregset_check on REGSET_TLS.
  unfoldable pub check_tls : Proc Call Bool
  check_tls = do
    org ← call env get_tls
    if not (is_zero org.ret) then pure false else do
      w ← call env (set_tls write_tls_val)
      if not (is_zero w.ret) then pure false else do
        tmp ← call env get_tls
        if not (is_zero tmp.ret)
            then pure false
            else if not (tmp.word == write_tls_val)
            then pure false
            else do back ← call env (set_tls org.word); pure (is_zero back.ret)

  -- The part of setregset_check on REGSET_SYSTEM_CALL.
  unfoldable pub check_system_call : Proc Call Bool
  check_system_call = do
    org ← call env get_system_call
    if not (is_zero org.ret) then pure false else do
      w ← call env (set_system_call write_sysno)
      if not (is_zero w.ret) then pure false else do
        tmp ← call env get_system_call
        if not (is_zero tmp.ret)
            then pure false
            else if not (tmp.word == write_sysno)
            then pure false
            else do back ← call env (set_system_call org.word); pure (is_zero back.ret)

  unfoldable pub setregset_check : Proc Call Checked
  unfolding write_gregs write_fregs check_tls check_system_call
  setregset_check = do
    g ← call env get_gregs
    if not (is_zero g.ret)
        then pure (record { ret = negsuc 0; gregno = none; fregno = none })
        else do
          let gregno = find_magic g.gregs.regs 31
          g_ok ← write_gregs gregno g.gregs
          if not g_ok then pure (record { ret = negsuc 0; gregno = gregno; fregno = none }) else do
            f ← call env get_fregs
            if not (is_zero f.ret)
                then pure (record { ret = negsuc 0; gregno = gregno; fregno = none })
                else do
                  f_ok ← write_fregs f.fregs
                  if not f_ok
                      then pure (record { ret = negsuc 0; gregno = gregno; fregno = some 16 })
                      else do
                        tls_ok ← check_tls
                        if not tls_ok
                            then pure (record { ret = negsuc 0; gregno = gregno; fregno = some 16 })
                            else do
                              sys_ok ← check_system_call
                              let ret = if sys_ok then pos 0 else negsuc 0
                              pure (record { ret = ret; gregno = gregno; fregno = some 16 })

  unfoldable pub check_trap_addr : (addr : ℕ) → Proc Call ℤ
  check_trap_addr addr = do
    r ← call env get_gregs
    if not (is_zero r.ret)
        then pure (negsuc 0)
        else pure (if r.gregs.pc == addr then pos 0 else negsuc 0)

  -- `word` is what `sysno`, 0 before the request, then holds.
  unfoldable pub get_check_syscallno : (expno : ℕ) → Proc Call ℤ
  get_check_syscallno expno = do
    r ← call env get_system_call
    if not (is_zero r.ret)
        then pure (negsuc 0)
        else pure (if r.word == expno then pos 0 else negsuc 0)

  -- `inst_addr` is where the child keeps the address of the instruction; `word` is what
  -- PTRACE_PEEKDATA returns, as an unsigned long.
  unfoldable pub rewrite_brk_inst : (inst_addr : ℕ) → Proc Call ℤ
  rewrite_brk_inst inst_addr = do
    r ← call env (peekdata inst_addr)
    if (r.word == 2 ^ 64 - 1) && not (r.errno == 0) then pure (negsuc 0) else do
      w ← call env (poketext r.word two_nops)
      pure (if is_zero w.ret then pos 0 else negsuc 0)

-- `qdata` is what fpregs_read leaves in `fpregs`, the child's own registers.
unfoldable pub setregset_child_check : (gregno fregno : ℕ) → (gregs : Gregs) → (qdata : List ℕ) → ℤ
setregset_child_check gregno fregno gregs qdata =
    if not (get_or gregs.regs gregno 0 == not64 gregno)
    then negsuc 0
    else if not (get_or qdata fregno 0 == not128 fregno)
    then negsuc 0
    else pos 0
