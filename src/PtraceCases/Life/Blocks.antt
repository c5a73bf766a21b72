-- ===== src/PtraceCases/Life/Blocks.antt =====
-- How the parts that the test cases share change what is known of the child.
use mckernel_ostest_arm.Base.{
  ℕ, ◌≡◌, ◌≢◌, inl, inr, refl, List, [], ◌∷◌, ◌++◌, map, some, arith, Bool-cases,
}
use mckernel_ostest_arm.Base.Int.{ℤ, pos, negsuc, is_zero, eq_ℤ}
use mckernel_ostest_arm.Base.Trace.{Env, Proc}
use mckernel_ostest_arm.Ptrace.Calls.{Call, Reply}
use mckernel_ostest_arm.Ptrace.Regset.{rewrite_brk_inst}
use mckernel_ostest_arm.PtraceCases.Events.{
  Event, Answer, request, requests_on, wait, cont, checked,
}
use mckernel_ostest_arm.PtraceCases.Flow.{
  Vars, Label, at_cont, at_out, Stop, stopped_by, not_stopped, stop_of, if_stopped, wait_stop,
  finish, trace_child,
}
use mckernel_ostest_arm.PtraceCases.Life.{Life, running, stopped, ended, life, kind, waits}

module _ (env : Env Event Answer) (cpid : ℤ) where
  abbrev pub IsKnown : List Event → Type 0
  IsKnown h = (l : Life) × (life env cpid h ≡ some l)

  -- Where a part of a test case may end that starts with a stopped child: at `cont` it is stopped
  -- still, and at `out` the part has failed.
  unfoldable pub IsReady : Label × List Event → Type 0
  IsReady (at_cont ret, h) = life env cpid h ≡ some stopped
  IsReady (at_out ret, h) = (ret ≢ pos 0) × IsKnown h

  pub at_cont-IsReady :
      (ret : ℤ) (h : List Event) → life env cpid h ≡ some stopped → IsReady (at_cont ret, h)
  unfolding IsReady
  at_cont-IsReady ret h at = at

  pub at_out-IsReady : (h : List Event) → IsKnown h → IsReady (at_out (negsuc 0), h)
  unfolding IsReady
  at_out-IsReady h known = (λ z. absurd (ground arith), known)

  -- A parent_func that breaks no rule, and that leaves the child running if it returns 0.
  abbrev pub IsReleased : ℤ × List Event → Type 0
  IsReleased (ret, h) = IsKnown h × (ret ≡ pos 0 → life env cpid h ≡ some running)

  abbrev pub IsWaited : Stop × List Event → Type 0
  IsWaited (stopped_by sig, h) = life env cpid h ≡ some stopped
  IsWaited (not_stopped, h) = IsKnown h

  pub life-requests :
      (h : List Event) (calls : List Call)
      → life env cpid h ≡ some stopped
      → life env cpid (map request calls ++ h) ≡ some stopped
  life-requests h [] at = at
  life-requests h (c ∷ calls) at = rw (life-requests h calls at) refl

  pub checked-life :
      {A : Type 0} (f : Env Call Reply → Proc Call A) (h : List Event)
      → life env cpid h ≡ some stopped
      → life env cpid (checked env f h).1 ≡ some stopped
  checked-life f h at = life-requests h (f (requests_on env h) []).1 at

  pub stop_of-IsWaited :
      (h : List Event) (e : Event) (l : Life)
      → life env cpid h ≡ some l
      → kind e ≡ waits
      → IsWaited (stop_of cpid (env h e), e ∷ h)
  stop_of-IsWaited h e l at is_wait = elim (Bool-cases (eq_ℤ (env h e).ret cpid)) [
    | inr other ↦ rw other (l, rw (at, is_wait, other) refl)
    | inl same ↦ elim (Bool-cases (env h e).status.wifstopped) [
      | inl stops ↦ rw (same, stops) (rw (at, is_wait, same, stops) refl)
      | inr ends ↦ rw (same, ends) (ended, rw (at, is_wait, same, ends) refl)
    ]
  ]

  pub wait_stop-IsWaited : (h : List Event) → IsKnown h → IsWaited (wait_stop env cpid h)
  unfolding wait_stop
  wait_stop-IsWaited h (l, at) = stop_of-IsWaited h wait l at refl

  -- The two ways on after a wait.
  pub if_stopped_lem :
      {A : Type 0} (P : A × List Event → Type 0) (s : Stop) (out : Proc Event A)
      (go : ℕ → Proc Event A) (h : List Event)
      → IsWaited (s, h)
      → (IsKnown h → P (out h))
      → ((sig : ℕ) → life env cpid h ≡ some stopped → P (go sig h))
      → P (if_stopped s out go h)
  if_stopped_lem P (stopped_by sig) out go h w p q = q sig w
  if_stopped_lem P not_stopped out go h w p q = p w

  pub finish-IsReleased :
      (label : Label) (h : List Event) → IsReady (label, h) → IsReleased (finish env label h)
  unfolding finish IsReady
  finish-IsReleased (at_cont ret) h ready = elim (Bool-cases (is_zero (env h cont).ret)) [
    | inl done ↦ rw (ready, done) ((running, refl), λ z. refl)
    | inr not_done ↦ rw (ready, not_done) ((stopped, refl), λ z. absurd (ground arith))
  ]
  finish-IsReleased (at_out ret) h (failed, known) = (known, λ z. absurd (failed z))

  pub trace_child-IsReleased :
      (v : Vars) (body : Proc Event Label) (h : List Event)
      → ((h : List Event) → life env cpid h ≡ some stopped → IsReady (body h))
      → IsKnown h
      → IsReleased (trace_child env v cpid body h)
  unfolding trace_child IsReady
  trace_child-IsReleased v body h ready known =
      let w = wait_stop-IsWaited h known in
      if_stopped_lem IsReleased (wait_stop env cpid h).0 _ _ (wait_stop env cpid h).1 w
        (λ k. (k, λ z. absurd (ground arith)))
        λ sig at.
          let (rewritten, h1) =
            checked env (λ on. rewrite_brk_inst on v.inst_addr) (wait_stop env cpid h).1 in
          let at1 =
            checked-life (λ on. rewrite_brk_inst on v.inst_addr) (wait_stop env cpid h).1 at in
          elim (Bool-cases (is_zero rewritten)) [
            | inl done ↦ rw done (finish-IsReleased (body h1).0 (body h1).1 (ready h1 at1))
            | inr not_done ↦ rw not_done (finish-IsReleased (at_cont (negsuc 0)) h1 at1)
          ]
