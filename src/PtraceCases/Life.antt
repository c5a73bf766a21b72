-- ===== src/PtraceCases/Life.antt =====
-- What the parent knows of its child, from the calls it has made: whether the child runs, is
-- stopped, or has ended.
pub mod Blocks
pub mod Bodies
pub mod Moves
pub mod Trapping
pub mod Parents
pub mod Rules
use mckernel_ostest_arm.Base.{
  ℕ, ◌≡◌, List, [], ◌∷◌, Bool, true, false, not, Option, none, some, if◌then◌else◌,
}
use mckernel_ostest_arm.Base.Int.{ℤ, pos, is_zero, eq_ℤ}
use mckernel_ostest_arm.Base.Trace.{Env}
use mckernel_ostest_arm.PtraceCases.Events.{
  Siginfo, Sem, Event, Answer, request, peektext, peekuser, pokedata, pokeuser, get_siginfo,
  get_eventmsg, set_siginfo, set_options, cont, syscall_stop, single_step, ptrace_kill, detach,
  wait, waitpid,
}

pub data Life : Type 0 where
  running stopped ended : Life

-- The kinds of calls: a request that needs a stopped child, one that lets it run on as well, a
-- wait, and the others.
pub data Kind : Type 0 where
  asks resumes waits plain : Kind

abbrev pub kind : Event → Kind
kind (request c) = asks
kind (peektext a) = asks
kind (peekuser a) = asks
kind (pokedata a w) = asks
kind (pokeuser a w) = asks
kind get_siginfo = asks
kind get_eventmsg = asks
kind (set_siginfo i) = asks
kind (set_options o) = asks
kind cont = resumes
kind syscall_stop = resumes
kind single_step = resumes
kind ptrace_kill = resumes
kind detach = resumes
kind wait = waits
kind (waitpid p) = waits
kind e = plain

-- One call and its answer. A wait may report another child, or fail: then nothing is known anew.
pub data Step (cpid : ℤ) (a : Answer) : Kind → Life → Life → Type 0 where
  ask : Step cpid a asks stopped stopped
  resume : is_zero a.ret ≡ true → Step cpid a resumes stopped running
  refused : is_zero a.ret ≡ false → Step cpid a resumes stopped stopped
  caught :
      {l : Life} → eq_ℤ a.ret cpid ≡ true → a.status.wifstopped ≡ true → Step cpid a waits l stopped
  reaped :
      {l : Life} → eq_ℤ a.ret cpid ≡ true → a.status.wifstopped ≡ false → Step cpid a waits l ended
  other : {l : Life} → eq_ℤ a.ret cpid ≡ false → Step cpid a waits l l
  pass : {l : Life} → Step cpid a plain l l

-- A history, newest call first, in which every request is made on a stopped child.
pub data Traced (env : Env Event Answer) (cpid : ℤ) : List Event → Life → Type 0 where
  start : Traced env cpid [] running
  next :
      {h : List Event} {e : Event} {l l' : Life}
      → Traced env cpid h l
      → Step cpid (env h e) (kind e) l l'
      → Traced env cpid (e ∷ h) l'

-- The same as a function; `none` is a request on a child that is not known to be stopped.
abbrev pub advance : (cpid : ℤ) → Answer → Kind → Life → Option Life
advance cpid a asks stopped = some stopped
advance cpid a asks l = none
advance cpid a resumes stopped = some (if is_zero a.ret then running else stopped)
advance cpid a resumes l = none
advance cpid a waits l =
    if not (eq_ℤ a.ret cpid)
    then some l
    else if a.status.wifstopped
    then some stopped
    else some ended
advance cpid a plain l = some l

abbrev pub life : Env Event Answer → (cpid : ℤ) → List Event → Option Life
life env cpid [] = some running
life env cpid (e ∷ h) = elim (life env cpid h) [
  | none ↦ none
  | some l ↦ advance cpid (env h e) (kind e) l
]
