-- ===== src/PtraceCases/Life/Moves.antt =====
-- The steps of the test cases that continue the child and wait for it again.
use mckernel_ostest_arm.Base.{
  ℕ, ◌≡◌, inl, inr, refl, List, ◌∷◌, Bool, true, false, not, some, Bool-cases, ◌==◌,
}
use mckernel_ostest_arm.Base.Int.{ℤ, negsuc, is_zero}
use mckernel_ostest_arm.Base.Trace.{Env, Proc}
use mckernel_ostest_arm.PtraceCases.Events.{Event, Answer, cont, get_siginfo, sigtrap}
use mckernel_ostest_arm.PtraceCases.Flow.{
  Label, at_out, if_stopped, or_cont, continue_child, wait_stop,
}
use mckernel_ostest_arm.PtraceCases.Traps.{at_trap, trapped}
use mckernel_ostest_arm.PtraceCases.Life.{running, stopped, life, kind, resumes, asks, plain}
use mckernel_ostest_arm.PtraceCases.Life.Blocks.{
  IsKnown, IsReady, at_cont-IsReady, at_out-IsReady, wait_stop-IsWaited, if_stopped_lem,
}

module _ (env : Env Event Answer) (cpid : ℤ) where
  -- A part that may follow on a stop.
  abbrev pub Follows : Proc Event Label → Type 0
  Follows next = (h : List Event) → life env cpid h ≡ some stopped → IsReady env cpid (next h)

  pub after_wait :
      (go : ℕ → Proc Event Label) (h : List Event)
      → IsKnown env cpid h
      → ((sig : ℕ) → Follows (go sig))
      → let (s, h1) = wait_stop env cpid h in
        IsReady env cpid (if_stopped s (λ h'. (at_out (negsuc 0), h')) go h1)
  after_wait go h known follows =
      let (s, h1) = wait_stop env cpid h in
      if_stopped_lem env cpid (IsReady env cpid) s (λ h'. (at_out (negsuc 0), h')) go h1
        (wait_stop-IsWaited env cpid h known) (at_out-IsReady env cpid h1) (λ sig. follows sig h1)

  pub at_trap-IsReady :
      (code addr : ℕ) (next : Proc Event Label) (h : List Event)
      → Follows next
      → IsKnown env cpid h
      → IsReady env cpid (at_trap env cpid code addr next h)
  unfolding at_trap IsReady
  at_trap-IsReady code addr next h follows known = after_wait _ h known λ sig h1 at.
      elim (Bool-cases (sig == sigtrap)) [
        | inr other ↦ rw other at
        | inl same ↦ elim (Bool-cases (is_zero (env h1 get_siginfo).ret)) [
          | inr e ↦ rw (same, e) (rw at refl)
          | inl e ↦ elim (Bool-cases (trapped code addr (env h1 get_siginfo).info)) [
            | inr t ↦ rw (same, e, t) (rw at refl)
            | inl t ↦ rw (same, e, t) (follows (get_siginfo ∷ h1) (rw at refl))
          ]
        ]
      ]

  pub or_cont-IsReady :
      (fails : Bool) (next : Proc Event Label) (h : List Event)
      → life env cpid h ≡ some stopped
      → IsReady env cpid (next h)
      → IsReady env cpid (or_cont fails next h)
  unfolding or_cont
  or_cont-IsReady true next h at ready = at_cont-IsReady env cpid (negsuc 0) h at
  or_cont-IsReady false next h at ready = ready

  pub asked :
      (e : Event) (h : List Event)
      → life env cpid h ≡ some stopped
      → kind e ≡ asks
      → life env cpid (e ∷ h) ≡ some stopped
  asked e h at is_ask = rw (at, is_ask) refl

  pub passed :
      (e : Event) (h : List Event)
      → life env cpid h ≡ some stopped
      → kind e ≡ plain
      → life env cpid (e ∷ h) ≡ some stopped
  passed e h at is_plain = rw (at, is_plain) refl

  pub resumed :
      (e : Event) (h : List Event)
      → life env cpid h ≡ some stopped
      → kind e ≡ resumes
      → IsKnown env cpid (e ∷ h)
  resumed e h at is_resume = elim (Bool-cases (is_zero (env h e).ret)) [
    | inl goes ↦ (running, rw (at, is_resume, goes) refl)
    | inr refuses ↦ (stopped, rw (at, is_resume, refuses) refl)
  ]

  pub continue_child-IsReady :
      (next : Proc Event Label) (h : List Event)
      → life env cpid h ≡ some stopped
      → (IsKnown env cpid (cont ∷ h) → IsReady env cpid (next (cont ∷ h)))
      → IsReady env cpid (continue_child env next h)
  unfolding continue_child
  continue_child-IsReady next h at ready =
      let known = resumed cont h at refl in
      elim (Bool-cases (is_zero (env h cont).ret)) [
        | inl goes ↦ rw goes (ready known)
        | inr refuses ↦ rw refuses (at_out-IsReady env cpid (cont ∷ h) known)
      ]

  -- A resuming request of which a failure goes to `cont`, where the child is stopped still.
  pub resume_or_cont-IsReady :
      (e : Event) (next : Proc Event Label) (h : List Event)
      → life env cpid h ≡ some stopped
      → kind e ≡ resumes
      → (IsKnown env cpid (e ∷ h) → IsReady env cpid (next (e ∷ h)))
      → IsReady env cpid (or_cont (not (is_zero (env h e).ret)) next (e ∷ h))
  unfolding or_cont
  resume_or_cont-IsReady e next h at is_resume ready = elim (Bool-cases (is_zero (env h e).ret)) [
    | inl goes ↦ rw goes (ready (resumed e h at is_resume))
    | inr refuses ↦
        rw refuses (at_cont-IsReady env cpid (negsuc 0) (e ∷ h) (rw (at, is_resume, refuses) refl))
  ]
