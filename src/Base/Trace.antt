-- ===== src/Base/Trace.antt =====
-- Calls of code outside the repository (the C library, the kernel, ihklib). An environment answers
-- each call from the calls made before it, newest first: it may be any deterministic behaviour, and
-- theorems range over all of them. A procedure extends the history by the calls that it makes.
use mathlib.Core.List.{List, [], ◌∷◌}
use Prim.Native.Nat.{ℕ, ◌+◌}

abbrev pub Env : Type 0 → Type 0 → Type 0
Env C R = List C → C → R

abbrev pub Proc : Type 0 → Type 0 → Type 0
Proc C A = List C → A × List C

abbrev pub pure : {C A : Type 0} → A → Proc C A
pure a h = (a, h)

infixl 5 ◌>>=◌ ◌>>◌
abbrev pub ◌>>=◌ : {C A B : Type 0} → Proc C A → (A → Proc C B) → Proc C B
◌>>=◌ m f h = let (a, h') = m h in f a h'

abbrev pub ◌>>◌ : {C A B : Type 0} → Proc C A → Proc C B → Proc C B
m >> k = m >>= λ _. k

abbrev pub call : {C R : Type 0} → Env C R → C → Proc C R
call env c h = (env h c, c ∷ h)

-- What the calls of a history gave and gave back, summed: the measures of a resource.
abbrev pub total_gain : {C R : Type 0} → (C → R → ℕ) → Env C R → List C → ℕ
total_gain gain env [] = 0
total_gain gain env (c ∷ h) = total_gain gain env h + gain c (env h c)

abbrev pub total_loss : {C : Type 0} → (C → ℕ) → List C → ℕ
total_loss loss [] = 0
total_loss loss (c ∷ h) = total_loss loss h + loss c
