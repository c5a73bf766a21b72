-- ===== src/Dispatch/Tests.antt =====
-- The dispatch of the two test programs on a small table.
use mckernel_ostest_arm.Base.{
  ℕ, List, [], ◌∷◌, ◌≡◌, refl, ◌⊎◌, ◌↔◌, ◌≤◌, none, some, length, get_elem?, arith,
}
use mckernel_ostest_arm.Base.Int.{ℤ, pos, negsuc}
use mckernel_ostest_arm.Base.Trace.{Proc}
use mckernel_ostest_arm.Dispatch.{exited, fault, TestCase, run_entry, choose, main_args, dispatch}
use mckernel_ostest_arm.Dispatch.Choice.{dispatch_runs, dispatch-eq-fault_iff}

-- An argument is the number that atoi makes of it.
abbrev atoi : ℤ → ℤ
atoi n = n

-- Leaves the OS number's sign in its result, and one call.
abbrev counts : ℤ → ℤ → Proc ℕ ℤ
counts tp_num os_num h = (tp_num, 1 ∷ h)

abbrev table : List (TestCase ℕ)
table = some counts ∷ none ∷ some counts ∷ []

third_case : dispatch atoi 3 table (pos 0 ∷ pos 63 ∷ pos 2 ∷ []) [] ≡ (exited (pos 2), 1 ∷ [])
unfolding dispatch main_args choose run_entry
third_case = refl

null_case : dispatch atoi 3 table (pos 0 ∷ pos 63 ∷ pos 1 ∷ []) [] ≡ (exited (negsuc 0), [])
unfolding dispatch main_args choose run_entry
null_case = refl

dispatch_runs_example :
    ((func : ℤ → ℤ → Proc ℕ ℤ) × (get_elem? table 2 ≡ some (some func))
      × (dispatch atoi 3 table (pos 0 ∷ pos 63 ∷ pos 2 ∷ []) []
          ≡ (exited (func (pos 2) (pos 63) []).0, (func (pos 2) (pos 63) []).1)))
    ⊎ (((get_elem? table 2 ≡ some none) ⊎ (3 ≤ 2))
        × (dispatch atoi 3 table (pos 0 ∷ pos 63 ∷ pos 2 ∷ []) [] ≡ (exited (negsuc 0), [])))
dispatch_runs_example =
    dispatch_runs atoi table (pos 0) (pos 63) (pos 2) [] 63 2 refl (omega arith) refl

dispatch-eq-fault_iff_example :
    ((dispatch atoi 3 table (pos 0 ∷ pos 0 ∷ negsuc 0 ∷ []) []).0 ≡ fault) ↔ (
      (3 ≡ length table)
      × ((o : ℕ) × (pos 0 ≡ pos o) × (o ≤ 63))
      × ((k : ℕ) × (negsuc 0 ≡ negsuc k)))
dispatch-eq-fault_iff_example = dispatch-eq-fault_iff atoi table (pos 0) (pos 0) (negsuc 0) [] 3
