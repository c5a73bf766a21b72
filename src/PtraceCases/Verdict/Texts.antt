-- ===== src/PtraceCases/Verdict/Texts.antt =====
-- 006.c and 017.c put a brk instruction in the child and take it away again.
use mckernel_ostest_arm.Base.{
  ℕ, ◌≡◌, refl, List, [], ◌∷◌, Bool, true, false, not, arith, if◌then◌else◌,
}
use mckernel_ostest_arm.Base.Int.{ℤ, pos, is_zero}
use mckernel_ostest_arm.Base.Trace.{Env}
use mckernel_ostest_arm.Ptrace.Calls.{peekdata, poketext}
use mckernel_ostest_arm.PtraceCases.Events.{
  Event, Answer, request, peektext, wait, cont, get_siginfo, trap_brkpt,
}
use mckernel_ostest_arm.PtraceCases.Flow.{Vars}
use mckernel_ostest_arm.PtraceCases.Traps.{with_brk, body_006, parent_006}
use mckernel_ostest_arm.PtraceCases.Verdict.{
  Ends, Ends-if, Ends-or_cont, Ends-continue_child, Ends-at_trap, IsTrap, rewritten,
  trace_child-IsDone,
}

pub not-false : (b : Bool) → not b ≡ false → b ≡ true
not-false true e = refl
not-false false e = absurd (ground arith)

-- What one call does to the child's text, which only the requests change.
abbrev pub text_step : {M : Type 0} → (poke : M → ℕ → ℕ → M) → Event → (done : Bool) → M → M
text_step poke (request (poketext a w)) done now = if done then poke now a w else now
text_step poke e done now = now

-- The text of a process, read and written a word at a time: what was read can be written back.
module _ {M : Type 0} (peek : M → ℕ → ℕ) (poke : M → ℕ → ℕ → M)
    (write_back : (m : M) (a w : ℕ) → poke (poke m a w) a (peek m a) ≡ m) (env : Env Event Answer)
    (m : M) where
  -- The child's text after a history.
  abbrev pub text_after : List Event → M
  text_after [] = m
  text_after (e ∷ h) = text_step poke e (is_zero (env h e).reply.ret) (text_after h)

  module _ (reads : (h : List Event) (a : ℕ) → (env h (peektext a)).word ≡ peek (text_after h) a)
      (v : Vars) (cpid : ℤ) where
    -- A word that is read, overwritten, and written back.
    pub put_back :
        (h : List Event) (a w : ℕ) (h' : List Event)
        → let before = peektext a ∷ h in
          let put = request (poketext a w) in
          let back = request (poketext a (env h (peektext a)).word) in
          is_zero (env before put).reply.ret ≡ true
          → text_after h' ≡ text_after (put ∷ before)
          → is_zero (env h' back).reply.ret ≡ true
          → text_after (back ∷ h') ≡ text_after h
    put_back h a w h' written same done =
        rw (done, same, written, reads h a) (write_back (text_after h) a w)

    -- The address that the child keeps of its instruction, as read after the history `start`.
    abbrev pub where_is : (start : List Event) → ℕ
    where_is start = (env start (request (peekdata v.addr))).reply.word

    abbrev pub IsTrapped : (start h : List Event) → Type 0
    IsTrapped start h =
        (text_after h ≡ text_after start)
        × (at : List Event) × IsTrap env cpid trap_brkpt (where_is start) at

    body_006-Ends : (h : List Event) → Ends env (IsTrapped h) (body_006 env v cpid h)
    unfolding body_006
    body_006-Ends h =
        let a = where_is h in
        let h1 = request (peekdata v.addr) ∷ h in
        let i = (env h1 (peektext a)).word in
        let put = request (poketext a (with_brk i)) in
        let h3 = put ∷ peektext a ∷ h1 in
        Ends-or_cont env (IsTrapped h) _ _ h1 λ _.
          Ends-or_cont env (IsTrapped h) _ _ (peektext a ∷ h1) λ _.
            Ends-or_cont env (IsTrapped h) _ _ h3 λ written.
              Ends-continue_child env (IsTrapped h) _ h3 λ goes.
                Ends-at_trap env (IsTrapped h) cpid trap_brkpt a _ (cont ∷ h3) λ trap.
                  let h' = get_siginfo ∷ wait ∷ cont ∷ h3 in
                  Ends-if env (IsTrapped h) _ (request (poketext a i) ∷ h') λ done.
                    (put_back h1 a (with_brk i) h' (not-false _ written) refl done, cont ∷ h3, trap)

    -- Where PTRACE_PEEKTEXT reads the child's text, which only the requests change, and where what
    -- was read can be written back: if parent_func of 006.c returns 0, the child was stopped by a
    -- brk instruction at the address of its own instruction, and is continued last of all with its
    -- text as rewrite_brk_inst has left it.
    pub parent_006-restores :
        (start : List Event)
        → (parent_006 env v cpid start).0 ≡ pos 0
        → (h : List Event) × IsTrapped (rewritten env v start) h
          × ((parent_006 env v cpid start).1 ≡ cont ∷ h)
          × (is_zero (env h cont).ret ≡ true)
    unfolding parent_006
    parent_006-restores start =
        trace_child-IsDone env (IsTrapped (rewritten env v start)) v cpid (body_006 env v cpid)
          start (λ _. body_006-Ends (rewritten env v start))
