-- ===== src/Perf/Protocol.antt =====
-- What one measurement cycle (perfevent_exec) does to the library, read off its calls.
use mckernel_ostest_arm.Base.{
  ℕ, ◌+◌, List, [], ◌∷◌, ◌≡◌, ◌⊎◌, ◌||◌, Bool, true, false, arith, if◌then◌else◌,
}
use mckernel_ostest_arm.Base.Int.{ℤ, pos, is_neg, is_zero}
use mckernel_ostest_arm.Base.Trace.{Env}
use mckernel_ostest_arm.Perf.{
  Attr, event_enable, event_disable, event_destroy, Call, setperfevent, perfctl, calloc, free,
  perfevent_exec,
}

-- The arrays that calloc gave out in a history, and those freed.
abbrev pub allocated : Env Call ℤ → List Call → ℕ
allocated env [] = 0
allocated env (calloc size n ∷ h) =
    allocated env h + (if is_zero (env h (calloc size n)) then 0 else 1)
allocated env (c ∷ h) = allocated env h

abbrev pub freed : List Call → ℕ
freed [] = 0
freed (free p ∷ h) = freed h + 1
freed (c ∷ h) = freed h

-- The state of the counters that ihklib's answers imply: a call that fails changes nothing.
pub data Phase : Type 0 where
  idle registered running stopped : Phase

abbrev pub phase : Env Call ℤ → List Call → Phase
phase env [] = idle
phase env (setperfevent os_num attr n ∷ h) =
    let r = env h (setperfevent os_num attr n) in
    if is_neg r || is_zero r then phase env h else registered
phase env (perfctl os_num event_enable ∷ h) =
    if is_neg (env h (perfctl os_num event_enable)) then phase env h else running
phase env (perfctl os_num event_disable ∷ h) =
    if is_neg (env h (perfctl os_num event_disable)) then phase env h else stopped
phase env (perfctl os_num event_destroy ∷ h) =
    if is_neg (env h (perfctl os_num event_destroy)) then phase env h else idle
phase env (c ∷ h) = phase env h

-- The last call was a calloc that returned NULL.
abbrev pub starved : Env Call ℤ → List Call → Bool
starved env (calloc size n ∷ h) = is_zero (env h (calloc size n))
starved env h = false

module _ (env : Env Call ℤ) (os_num : ℤ) (attr : List Attr) (n : ℕ) (h : List Call) where
  -- Whatever the library answers, one cycle frees as many arrays as calloc gave it.
  pub perfevent_exec_balanced :
      let h' = (perfevent_exec env os_num attr n h).1 in
      allocated env h' + freed h ≡ freed h' + allocated env h
  unfolding perfevent_exec
  perfevent_exec_balanced = ground arith

  -- A cycle that begins with idle counters and returns 0 leaves them idle, unless calloc returned
  -- NULL: then it leaves them running.
  pub perfevent_exec_quiesces :
      phase env h ≡ idle
      → (perfevent_exec env os_num attr n h).0 ≡ pos 0
      → let h' = (perfevent_exec env os_num attr n h).1 in
        ((phase env h' ≡ idle) × (starved env h' ≡ false))
        ⊎ ((phase env h' ≡ running) × (starved env h' ≡ true))
  unfolding perfevent_exec
  perfevent_exec_quiesces e r = ground arith
