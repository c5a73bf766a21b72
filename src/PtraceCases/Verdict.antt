-- ===== src/PtraceCases/Verdict.antt =====
-- What a parent_func that returns 0 has seen: rules for the parts that the test cases share.
pub mod Texts
pub mod Steps
pub mod Points
pub mod Marks
pub mod Info
pub mod Runs
use mckernel_ostest_arm.Base.{
  ℕ, ◌≡◌, ◌≢◌, ◌⊎◌, inl, inr, refl, ap, ◌∙◌, List, ◌∷◌, Bool, true, false, not, arith, Bool-cases,
  ◌==◌, if◌then◌else◌, ==_iff,
}
use mckernel_ostest_arm.Base.Int.{ℤ, pos, negsuc, is_zero, eq_ℤ}
use mckernel_ostest_arm.Base.Trace.{Env, Proc}
use mckernel_ostest_arm.Ptrace.Regset.{rewrite_brk_inst}
use mckernel_ostest_arm.PtraceCases.Events.{
  Siginfo, Event, Answer, wait, cont, checked, get_siginfo, sigtrap,
}
use mckernel_ostest_arm.PtraceCases.Flow.{
  Vars, Label, at_cont, at_out, Stop, stopped_by, not_stopped, stop_of, if_stopped, or_cont,
  continue_child, wait_stop, finish, trace_child,
}
use mckernel_ostest_arm.PtraceCases.Traps.{trapped, at_trap}

Stop-cases : (s : Stop) → (s ≡ not_stopped) ⊎ ((sig : ℕ) × (s ≡ stopped_by sig))
Stop-cases (stopped_by sig) = inr (sig, refl)
Stop-cases not_stopped = inl refl

-- A SIGTRAP with a code and an address.
abbrev pub IsTrapInfo : (code addr : ℕ) → Siginfo → Type 0
IsTrapInfo code addr info =
    (info.si_signo ≡ pos sigtrap)
    × (info.si_errno ≡ pos 0)
    × (info.si_code ≡ pos code)
    × (info.si_addr ≡ addr)

-- The child was stopped by such a signal.
abbrev pub IsTrap : Env Event Answer → (cpid : ℤ) → (code addr : ℕ) → List Event → Type 0
IsTrap env cpid code addr h =
    ((env h wait).ret ≡ cpid)
    × ((env h wait).status.wifstopped ≡ true)
    × ((env h wait).status.wstopsig ≡ sigtrap)
    × IsTrapInfo code addr (env (wait ∷ h) get_siginfo).info

eq_ℤ→≡ : (x y : ℤ) → eq_ℤ x y ≡ true → x ≡ y
eq_ℤ→≡ (pos n) (pos m) e = ap pos ((==_iff n m).0 e)
eq_ℤ→≡ (negsuc n) (negsuc m) e = ap negsuc ((==_iff n m).0 e)
eq_ℤ→≡ (pos n) (negsuc m) e = cc e
eq_ℤ→≡ (negsuc n) (pos m) e = cc e

trapped-IsTrapInfo :
    (code addr : ℕ) (info : Siginfo) → trapped code addr info ≡ true → IsTrapInfo code addr info
trapped-IsTrapInfo code addr info ok =
    let signo = eq_ℤ→≡ info.si_signo (pos sigtrap) in
    let errno = eq_ℤ→≡ info.si_errno (pos 0) in
    let si_code = eq_ℤ→≡ info.si_code (pos code) in ground arith

stopped_by-stop_of :
    (cpid : ℤ) (w : Answer) (sig : ℕ)
    → stop_of cpid w ≡ stopped_by sig
    → (w.ret ≡ cpid) × (w.status.wifstopped ≡ true) × (w.status.wstopsig ≡ sig)
stopped_by-stop_of cpid w sig e = let same = eq_ℤ→≡ w.ret cpid in ground arith

-- The history after the wait of a test case, and after the removal of the brk instruction.
abbrev pub rewritten : Env Event Answer → Vars → List Event → List Event
rewritten env v h = (checked env (λ on. rewrite_brk_inst on v.inst_addr) (wait ∷ h)).1

module _ (env : Env Event Answer) (P : List Event → Type 0) where
  -- If parent_func is going to return 0, `P` holds of what has been done.
  unfoldable pub Ends : Label × List Event → Type 0
  Ends (at_cont ret, h) = ret ≡ pos 0 → P h
  Ends (at_out ret, h) = ret ≢ pos 0

  pub Ends-at_cont : (ret : ℤ) (h : List Event) → (ret ≡ pos 0 → P h) → Ends (at_cont ret, h)
  unfolding Ends
  Ends-at_cont ret h p = p

  -- The last test of a test case.
  pub Ends-if :
      (ok : Bool) (h : List Event)
      → (ok ≡ true → P h)
      → Ends (at_cont (if ok then pos 0 else negsuc 0), h)
  unfolding Ends
  Ends-if true h p = λ z. p refl
  Ends-if false h p = λ z. absurd (ground arith)

  pub Ends-or_cont :
      (fails : Bool) (next : Proc Event Label) (h : List Event)
      → (fails ≡ false → Ends (next h))
      → Ends (or_cont fails next h)
  unfolding Ends or_cont
  Ends-or_cont true next h p = λ z. absurd (ground arith)
  Ends-or_cont false next h p = p refl

  pub Ends-continue_child :
      (next : Proc Event Label) (h : List Event)
      → (is_zero (env h cont).ret ≡ true → Ends (next (cont ∷ h)))
      → Ends (continue_child env next h)
  unfolding Ends continue_child
  Ends-continue_child next h p = elim (Bool-cases (is_zero (env h cont).ret)) [
    | inl goes ↦ rw goes (p goes)
    | inr refuses ↦ rw refuses (λ z. absurd (ground arith))
  ]

  pub Ends-wait :
      (cpid : ℤ) (go : ℕ → Proc Event Label) (h : List Event)
      → ((sig : ℕ) → stop_of cpid (env h wait) ≡ stopped_by sig → Ends (go sig (wait ∷ h)))
      → let (s, h1) = wait_stop env cpid h in
        Ends (if_stopped s (λ h'. (at_out (negsuc 0), h')) go h1)
  unfolding Ends wait_stop
  Ends-wait cpid go h p = elim (Stop-cases (stop_of cpid (env h wait))) [
    | inl none_seen ↦ rw none_seen (λ z. absurd (ground arith))
    | inr (sig, seen) ↦ rw seen (p sig seen)
  ]

  pub Ends-at_trap :
      (cpid : ℤ) (code addr : ℕ) (next : Proc Event Label) (h : List Event)
      → (IsTrap env cpid code addr h → Ends (next (get_siginfo ∷ wait ∷ h)))
      → Ends (at_trap env cpid code addr next h)
  unfolding Ends at_trap wait_stop
  Ends-at_trap cpid code addr next h p =
      let i = env (wait ∷ h) get_siginfo in
      elim (Stop-cases (stop_of cpid (env h wait))) [
        | inl none_seen ↦ rw none_seen (λ z. absurd (ground arith))
        | inr (sig, seen) ↦ elim (Bool-cases (sig == sigtrap)) [
          | inr odd ↦ rw (seen, odd) (λ z. absurd (ground arith))
          | inl trap ↦ elim (Bool-cases (is_zero i.ret)) [
            | inr fails ↦ rw (seen, trap, fails) (λ z. absurd (ground arith))
            | inl reads ↦ elim (Bool-cases (trapped code addr i.info)) [
              | inr wrong ↦ rw (seen, trap, reads, wrong) (λ z. absurd (ground arith))
              | inl right ↦
                  rw (seen, trap, reads, right)
                    (let (own, stop, by) = stopped_by-stop_of cpid (env h wait) sig seen in
                      p (
                        own,
                        stop,
                        by ∙ (==_iff sig sigtrap).0 trap,
                        trapped-IsTrapInfo code addr i.info right,
                      ))
            ]
          ]
        ]
      ]

  -- A return of 0 comes through `cont`, where the child is continued.
  abbrev pub IsDone : ℤ × List Event → Type 0
  IsDone (ret, h') =
      ret ≡ pos 0 → (h : List Event) × P h × (h' ≡ cont ∷ h) × (is_zero (env h cont).ret ≡ true)

  pub finish-IsDone :
      (label : Label) (h : List Event) → Ends (label, h) → IsDone (finish env label h)
  unfolding Ends finish
  finish-IsDone (at_out ret) h p z = absurd (p z)
  finish-IsDone (at_cont ret) h p z = elim (Bool-cases (is_zero (env h cont).ret)) [
    | inl goes ↦ let zero = rw goes at z in (h, p zero, refl, goes)
    | inr refuses ↦ let minus = rw refuses at z in absurd (ground arith)
  ]

  pub trace_child-IsDone :
      (v : Vars) (cpid : ℤ) (body : Proc Event Label) (h : List Event)
      → (is_zero (checked env (λ on. rewrite_brk_inst on v.inst_addr) (wait ∷ h)).0 ≡ true
          → Ends (body (rewritten env v h)))
      → IsDone (trace_child env v cpid body h)
  unfolding trace_child wait_stop
  trace_child-IsDone v cpid body h p = elim (Stop-cases (stop_of cpid (env h wait))) [
    | inl none_seen ↦ rw none_seen (λ z. absurd (ground arith))
    | inr (sig, seen) ↦
        let (ret, h2) = checked env (λ on. rewrite_brk_inst on v.inst_addr) (wait ∷ h) in
        elim (Bool-cases (is_zero ret)) [
          | inl done ↦ rw (seen, done) (finish-IsDone (body h2).0 (body h2).1 (p done))
          | inr fails ↦
              rw (seen, fails)
                (finish-IsDone (at_cont (negsuc 0)) h2
                  (Ends-at_cont (negsuc 0) h2 λ z. absurd (ground arith)))
        ]
  ]

pub Ends-map :
    (env : Env Event Answer) (P Q : List Event → Type 0) (label : Label) (h : List Event)
    → ((h : List Event) → P h → Q h)
    → Ends env P (label, h)
    → Ends env Q (label, h)
unfolding Ends
Ends-map env P Q (at_cont ret) h f p = λ z. f h (p z)
Ends-map env P Q (at_out ret) h f p = p
