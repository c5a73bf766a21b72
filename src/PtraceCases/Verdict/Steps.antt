-- ===== src/PtraceCases/Verdict/Steps.antt =====
-- The single steps of 017.c.
use mckernel_ostest_arm.Base.{ℕ, zero, suc, ◌+◌, ◌%◌, ◌^◌, ◌≡◌, refl, ap, ◌∙◌, List, ◌∷◌, true}
use mckernel_ostest_arm.Base.Int.{ℤ, pos, is_zero}
use mckernel_ostest_arm.Base.Trace.{Env}
use mckernel_ostest_arm.Ptrace.Calls.{peekdata, poketext}
use mckernel_ostest_arm.PtraceCases.Events.{
  Event, Answer, request, peektext, wait, cont, single_step, get_siginfo, trap_hwbkpt,
}
use mckernel_ostest_arm.PtraceCases.Flow.{Vars}
use mckernel_ostest_arm.PtraceCases.Traps.{with_brk}
use mckernel_ostest_arm.PtraceCases.Stepping.{step_loop, loop_count, body_017, parent_017}
use mckernel_ostest_arm.PtraceCases.Verdict.{
  Ends, Ends-at_cont, Ends-or_cont, Ends-continue_child, Ends-wait, Ends-at_trap, Ends-map, IsTrap,
  rewritten, trace_child-IsDone,
}
use mckernel_ostest_arm.PtraceCases.Verdict.Texts.{not-false, text_after, put_back}

-- From the history `before` to `h`, `left` single steps one after the other and nothing else: the first
-- one stopped the child at `read_val`, and each other one an instruction further on.
abbrev pub HasSteps :
    Env Event Answer → (cpid : ℤ) → (left read_val : ℕ) → (before h : List Event) → Type 0
HasSteps env cpid zero read_val before h = h ≡ before
HasSteps env cpid (suc left) read_val before h =
    IsTrap env cpid trap_hwbkpt read_val (single_step ∷ before)
    × HasSteps env cpid left ((read_val + 4) % 2 ^ 64) (get_siginfo ∷ wait ∷ single_step ∷ before) h

module _ (env : Env Event Answer) (cpid : ℤ) where
  pub step_loop-Ends :
      (left read_val : ℕ) (before : List Event)
      → Ends env (HasSteps env cpid left read_val before) (step_loop env cpid left read_val before)
  unfolding step_loop
  step_loop-Ends zero read_val before =
      Ends-at_cont env (HasSteps env cpid zero read_val before) (pos 0) before λ _. refl
  step_loop-Ends (suc left) read_val before =
      let h1 = single_step ∷ before in
      let h2 = get_siginfo ∷ wait ∷ h1 in
      let next = (read_val + 4) % 2 ^ 64 in
      let P = HasSteps env cpid (suc left) read_val before in
      let (label, h3) = step_loop env cpid left next h2 in
      Ends-or_cont env P _ _ h1 λ _. Ends-at_trap env P cpid trap_hwbkpt read_val _ h1 λ trap.
        Ends-map env (HasSteps env cpid left next h2) P label h3 (λ h' more. (trap, more))
          (step_loop-Ends left next h2)

  -- The steps leave what the requests do not change.
  steps_keep :
      {A : Type 0} (f : List Event → A)
      → ((h : List Event) → f (get_siginfo ∷ wait ∷ single_step ∷ h) ≡ f h)
      → (left read_val : ℕ) (before h : List Event) → HasSteps env cpid left read_val before h
      → f h ≡ f before
  steps_keep f keeps zero read_val before h same = ap f same
  steps_keep f keeps (suc left) read_val before h (trap, more) =
      steps_keep f keeps left ((read_val + 4) % 2 ^ 64) (get_siginfo ∷ wait ∷ single_step ∷ before)
        h more
      ∙ keeps before

module _ {M : Type 0} (peek : M → ℕ → ℕ) (poke : M → ℕ → ℕ → M)
    (write_back : (m : M) (a w : ℕ) → poke (poke m a w) a (peek m a) ≡ m) (env : Env Event Answer)
    (m : M)
    (reads : (h : List Event) (a : ℕ)
      → (env h (peektext a)).word ≡ peek (text_after peek poke write_back env m h) a)
    (v : Vars) (cpid : ℤ) where
  abbrev pub text : List Event → M
  text = text_after peek poke write_back env m

  abbrev pub instruction : List Event → ℕ
  instruction start = (env start (request (peekdata v.addr))).reply.word

  abbrev pub Restored : (start h : List Event) → Type 0
  Restored start h =
      (text h ≡ text start)
      × (before : List Event) × HasSteps env cpid 5 ((instruction start + 4) % 2 ^ 64) before h

  body_017-Ends : (h : List Event) → Ends env (Restored h) (body_017 env v cpid h)
  unfolding body_017
  body_017-Ends h =
      let a = instruction h in
      let h1 = request (peekdata v.addr) ∷ h in
      let i = (env h1 (peektext a)).word in
      let put = request (poketext a (with_brk i)) in
      let back = request (poketext a i) in
      let h3 = put ∷ peektext a ∷ h1 in
      let h4 = wait ∷ cont ∷ h3 in
      Ends-or_cont env (Restored h) _ _ h1 λ _.
        Ends-or_cont env (Restored h) _ _ (peektext a ∷ h1) λ _.
          Ends-or_cont env (Restored h) _ _ h3 λ written.
            Ends-continue_child env (Restored h) _ h3 λ goes.
              Ends-wait env (Restored h) cpid _ (cont ∷ h3) λ sig seen.
                Ends-or_cont env (Restored h) _ _ h4 λ _.
                  Ends-or_cont env (Restored h) _ _ (back ∷ h4) λ done.
                    let before = back ∷ h4 in
                    let next = (a + 4) % 2 ^ 64 in
                    let (label, h5) = step_loop env cpid loop_count next before in
                    let same =
                      put_back peek poke write_back env m reads v cpid h1 a (with_brk i) h4
                        (not-false _ written) refl (not-false _ done) in
                    Ends-map env (HasSteps env cpid 5 next before) (Restored h) label h5
                      (λ h' steps. (
                        steps_keep env cpid text (λ _. refl) 5 next before h' steps ∙ same,
                        before,
                        steps,
                      ))
                      (step_loop-Ends env cpid 5 next before)

  -- Where PTRACE_PEEKTEXT reads the child's text, which only the requests change, and where what
  -- was read can be written back: if parent_func of 017.c returns 0, then its last calls but one are
  -- five single steps, each with its wait and PTRACE_GETSIGINFO, which stopped the child with a
  -- SIGTRAP of code TRAP_HWBKPT, an instruction after the other from the one behind its own
  -- instruction on; and it is continued last of all with its text as rewrite_brk_inst has left it.
  pub parent_017-steps :
      (start : List Event)
      → (parent_017 env v cpid start).0 ≡ pos 0
      → (h : List Event) × Restored (rewritten env v start) h
        × ((parent_017 env v cpid start).1 ≡ cont ∷ h)
        × (is_zero (env h cont).ret ≡ true)
  unfolding parent_017
  parent_017-steps start =
      trace_child-IsDone env (Restored (rewritten env v start)) v cpid (body_017 env v cpid) start
        (λ _. body_017-Ends (rewritten env v start))
