-- ===== src/Ptrace/Debug.antt =====
-- The hardware watchpoints and breakpoints of arch_test_ptrace.c. The functions for the two sets
-- have the same body but for the set and for `ctrl`.
use mckernel_ostest_arm.Base.{
  ℕ, zero, suc, ◌+◌, ◌-◌, ◌*◌, ◌%◌, ◌^◌, List, [], ◌∷◌, not, set, if◌then◌else◌,
}
use mckernel_ostest_arm.Base.Int.{ℤ, pos, negsuc, is_zero}
use mckernel_ostest_arm.Base.Trace.{Env, Proc, pure, call, ◌>>=◌}
use mckernel_ostest_arm.Ptrace.Calls.{DbgReg, Hw, hw_break, hw_watch, Call, get_hw, set_hw, Reply}

-- The bytes before `dbg_regs`, and the bytes of one element.
abbrev pub iov_len : (num_reg : ℕ) → ℕ
iov_len num_reg = 8 + 16 * num_reg

-- The bits of `ctrl` that are set one after the other do not overlap, so `|=` is a sum: the kind of
-- access from bit 3, the byte mask from bit 5, EL0 from bit 1, and the enable bit.
abbrev pub ctrl_word : (access len : ℕ) → ℕ
ctrl_word access len = access * 2 ^ 3 + (2 ^ len - 1) * 2 ^ 5 + (2 * 2 ^ 1 + 1)

abbrev pub watch_ctrl : ℕ
watch_ctrl = ctrl_word 2 8

abbrev pub break_ctrl : ℕ
break_ctrl = ctrl_word 0 4

-- The loop that clears `left` registers from the first on. `dbg_regs` has 16 elements; the loop of
-- the code runs on behind them if the count is larger, and this one stops.
unfoldable pub all_clear : (left : ℕ) → List DbgReg → List DbgReg
all_clear zero regs = regs
all_clear (suc left) [] = []
all_clear (suc left) (r ∷ regs) = record { addr = 0; ctrl = 0 } ∷ all_clear left regs

module _ (env : Env Call Reply) where
  unfoldable pub set_hw_pt : Hw → (ctrl addr : ℕ) → Proc Call ℤ
  set_hw_pt k ctrl addr = do
    r ← call env (get_hw k)
    if not (is_zero r.ret) then pure (negsuc 0) else do
      let num_reg = r.hw.dbg_info % 2 ^ 8
      let regs = set r.hw.dbg_regs 0 (record { addr = addr; ctrl = ctrl })
      w ←
          call env
            (set_hw k (iov_len num_reg) (record { dbg_info = r.hw.dbg_info; dbg_regs = regs }))
      pure (if is_zero w.ret then pos 0 else negsuc 0)

  unfoldable pub clear_hw_pt : Hw → Proc Call ℤ
  clear_hw_pt k = do
    r ← call env (get_hw k)
    if not (is_zero r.ret) then pure (negsuc 0) else do
      let num_reg = r.hw.dbg_info % 2 ^ 8
      let regs = all_clear num_reg r.hw.dbg_regs
      w ←
          call env
            (set_hw k (iov_len num_reg) (record { dbg_info = r.hw.dbg_info; dbg_regs = regs }))
      pure (if is_zero w.ret then pos 0 else negsuc 0)

  unfoldable pub set_hw_watchpt : (addr : ℕ) → Proc Call ℤ
  unfolding set_hw_pt
  set_hw_watchpt addr = set_hw_pt hw_watch watch_ctrl addr

  unfoldable pub clear_hw_watchpt : Proc Call ℤ
  unfolding clear_hw_pt
  clear_hw_watchpt = clear_hw_pt hw_watch

  unfoldable pub set_hw_breakpt : (addr : ℕ) → Proc Call ℤ
  unfolding set_hw_pt
  set_hw_breakpt addr = set_hw_pt hw_break break_ctrl addr

  unfoldable pub clear_hw_breakpt : Proc Call ℤ
  unfolding clear_hw_pt
  clear_hw_breakpt = clear_hw_pt hw_break
