-- ===== src/PtraceCases/Life/Rules.antt =====
-- The step relation and its function agree, so what the functions know of the child is what the
-- rules of ptrace allow.
use mckernel_ostest_arm.Base.{
  zero, suc, ◌≡◌, ◌≢◌, ◌⊎◌, inl, inr, refl, List, [], ◌∷◌, none, some, Bool-cases, arith,
}
use mckernel_ostest_arm.Base.Int.{ℤ, pos, negsuc, is_zero, eq_ℤ}
use mckernel_ostest_arm.Base.Trace.{Env}
use mckernel_ostest_arm.PtraceCases.Events.{Event, Answer}
use mckernel_ostest_arm.PtraceCases.Flow.{Vars}
use mckernel_ostest_arm.PtraceCases.Life.{
  Life, running, stopped, ended, Kind, asks, resumes, waits, plain, kind, Step, ask, resume,
  refused, caught, reaped, other, pass, Traced, start, next, advance, life,
}
use mckernel_ostest_arm.PtraceCases.Life.Parents.{File, parent_func, parent_func-IsReleased}

zero_or_not : (z : ℤ) → (z ≡ pos 0) ⊎ (z ≢ pos 0)
zero_or_not (pos zero) = inl refl
zero_or_not (pos (suc n)) = inr λ e. absurd (ground arith)
zero_or_not (negsuc n) = inr λ e. absurd (ground arith)

module _ (cpid : ℤ) (a : Answer) where
  Step-advance : {k : Kind} {l l' : Life} → Step cpid a k l l' → advance cpid a k l ≡ some l'
  Step-advance ask = refl
  Step-advance (resume e) = rw e refl
  Step-advance (refused e) = rw e refl
  Step-advance (caught e s) = rw (e, s) refl
  Step-advance (reaped e s) = rw (e, s) refl
  Step-advance (other e) = rw e refl
  Step-advance pass = refl

  abbrev Moved : Kind → Life → Type 0
  Moved k l =
      (advance cpid a k l ≡ none)
      ⊎ ((l' : Life) × (advance cpid a k l ≡ some l') × Step cpid a k l l')

  advance-Step : (k : Kind) (l : Life) → Moved k l
  advance-Step asks running = inl refl
  advance-Step asks stopped = inr (stopped, refl, ask)
  advance-Step asks ended = inl refl
  advance-Step resumes running = inl refl
  advance-Step resumes stopped = elim (Bool-cases (is_zero a.ret)) [
    | inl e ↦ inr (running, rw e refl, resume e)
    | inr e ↦ inr (stopped, rw e refl, refused e)
  ]
  advance-Step resumes ended = inl refl
  advance-Step waits l = elim (Bool-cases (eq_ℤ a.ret cpid)) [
    | inr e ↦ inr (l, rw e refl, other e)
    | inl e ↦ elim (Bool-cases a.status.wifstopped) [
      | inl s ↦ inr (stopped, rw (e, s) refl, caught e s)
      | inr s ↦ inr (ended, rw (e, s) refl, reaped e s)
    ]
  ]
  advance-Step plain l = inr (l, refl, pass)

module _ (env : Env Event Answer) (cpid : ℤ) where
  Traced-life : {h : List Event} {l : Life} → Traced env cpid h l → life env cpid h ≡ some l
  Traced-life start = refl
  Traced-life (next t s) = rw (Traced-life t) (Step-advance cpid (env _ _) s)

  life-Traced :
      (h : List Event)
      → (life env cpid h ≡ none) ⊎ ((l : Life) × (life env cpid h ≡ some l) × Traced env cpid h l)
  life-Traced [] = inr (running, refl, start)
  life-Traced (e ∷ h) = elim (life-Traced h) [
    | inl lost ↦ inl (rw lost refl)
    | inr (l, at, t) ↦ elim (advance-Step cpid (env h e) (kind e) l) [
      | inl lost ↦ inl (rw (at, lost) refl)
      | inr (l', moved, s) ↦ inr (l', rw (at, moved) refl, next t s)
    ]
  ]

  pub known-Traced : (h : List Event) (l : Life) → life env cpid h ≡ some l → Traced env cpid h l
  known-Traced h l at = elim (life-Traced h) [
    | inl lost ↦ absurd (ground arith)
    | inr (l', at', t) ↦ let same : l' ≡ l = cc in rw same at t
  ]

  -- If a history keeps the rules of ptrace on the child, it still does after parent_func of 001.c
  -- to 020.c: every request has been made while the child was stopped. Either parent_func does not
  -- return 0, or it has let the child go.
  pub parent_func-Traced :
      (v : Vars) (f : File) (h : List Event) (l : Life)
      → Traced env cpid h l
      → let (ret, h') = parent_func env v cpid f h in
        (l' : Life) × Traced env cpid h' l' × ((ret ≢ pos 0) ⊎ (l' ≡ running))
  parent_func-Traced v f h l t =
      let ((l', at), free) = parent_func-IsReleased env v cpid f h (l, Traced-life t) in
      let (ret, h') = parent_func env v cpid f h in
      (
        l',
        known-Traced h' l' at,
        elim (zero_or_not ret) [
          | inr not_0 ↦ inl not_0
          | inl is_0 ↦ let goes = free is_0 in inr cc
        ],
      )
