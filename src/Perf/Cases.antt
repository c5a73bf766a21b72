-- ===== src/Perf/Cases.antt =====
-- cpu_pa_info/src/000.c to 005.c: the test cases, each a sequence of measurement cycles.
use mckernel_ostest_arm.Base.{ℕ, zero, suc, ◌+◌, List, [], ◌∷◌, if◌then◌else◌}
use mckernel_ostest_arm.Base.Int.{ℤ, pos, is_zero}
use mckernel_ostest_arm.Base.Trace.{Env, Proc, pure, ◌>>=◌}
use mckernel_ostest_arm.Dispatch.{Outcome, TestCase, dispatch}
use mckernel_ostest_arm.Perf.{Attr, Call, get_config_num, perfevent_exec}

-- An attribute cleared by memset, with its event number.
abbrev pub with_config : ℕ → Attr
with_config c = record {
  config = c;
  disabled = 0;
  pinned = 0;
  exclude_user = 0;
  exclude_kernel = 0;
  exclude_hv = 0;
  exclude_idle = 0;
}

abbrev pub cpu_cycles : ℕ
cpu_cycles = 0x11

abbrev pub inst_retired : ℕ
inst_retired = 0x08

-- The loop of 000.c: `left` rounds from `i` on, with `break` after a failure.
unfoldable pub loop_000 : Env Call ℤ → ℤ → (left i : ℕ) → ℤ → Proc Call ℤ
loop_000 env os_num zero i ret = pure ret
loop_000 env os_num (suc left) i ret = do
  ret ← perfevent_exec env os_num (with_config i ∷ []) 1
  let rest = loop_000 env os_num left (i + 1) ret
  if is_zero ret then rest else pure ret

unfoldable pub test_000 : Env Call ℤ → ℤ → Proc Call ℤ
unfolding loop_000
test_000 env os_num = loop_000 env os_num get_config_num 0 (pos 0)

-- The array that a loop fills with `attr[i].config = i`.
unfoldable pub numbered : (left i : ℕ) → List Attr
numbered zero i = []
numbered (suc left) i = with_config i ∷ numbered left (i + 1)

unfoldable pub test_001 : Env Call ℤ → ℤ → Proc Call ℤ
unfolding numbered
test_001 env os_num = perfevent_exec env os_num (numbered get_config_num 0) get_config_num

-- The loop of 002.c and of 003.c over their attributes, with `break` after a failure.
unfoldable pub run_each : Env Call ℤ → ℤ → List Attr → ℤ → Proc Call ℤ
run_each env os_num [] ret = pure ret
run_each env os_num (a ∷ attr) ret = do
  ret ← perfevent_exec env os_num (a ∷ []) 1
  let rest = run_each env os_num attr ret
  if is_zero ret then rest else pure ret

abbrev pub attr_002 : List Attr
attr_002 =
    record (with_config cpu_cycles) { disabled = 1 }
    ∷ record (with_config inst_retired) { disabled = 1 }
    ∷ []

unfoldable pub test_002 : Env Call ℤ → ℤ → Proc Call ℤ
unfolding run_each
test_002 env os_num = run_each env os_num attr_002 (pos 0)

abbrev pub attr_003 : List Attr
attr_003 =
    record (with_config cpu_cycles) { pinned = 1 }
    ∷ record (with_config inst_retired) { pinned = 1 }
    ∷ []

unfoldable pub test_003 : Env Call ℤ → ℤ → Proc Call ℤ
unfolding run_each
test_003 env os_num = run_each env os_num attr_003 (pos 0)

abbrev excluding : ℕ → ℕ → ℕ → ℕ → Attr
excluding user kernel hv idle = record (with_config 0) {
  exclude_user = user;
  exclude_kernel = kernel;
  exclude_hv = hv;
  exclude_idle = idle;
}

abbrev pub attr_004 : List Attr
attr_004 =
    excluding 1 0 0 0
    ∷ excluding 0 1 0 0
    ∷ excluding 1 1 0 0
    ∷ excluding 0 0 1 0
    ∷ excluding 1 0 1 0
    ∷ excluding 0 1 1 0
    ∷ excluding 1 1 1 0
    ∷ excluding 0 0 0 1
    ∷ excluding 1 0 0 1
    ∷ excluding 0 1 0 1
    ∷ excluding 1 1 0 1
    ∷ excluding 0 0 1 1
    ∷ excluding 1 0 1 1
    ∷ excluding 0 1 1 1
    ∷ excluding 1 1 1 1
    ∷ []

-- The inner loop of 004.c: `attr[i].config = config[j]` and one cycle for each event number. A
-- failure leaves both loops by `goto out`.
unfoldable pub inner_004 : Env Call ℤ → ℤ → Attr → List ℕ → ℤ → Proc Call ℤ
inner_004 env os_num a [] ret = pure ret
inner_004 env os_num a (c ∷ config) ret = do
  ret ← perfevent_exec env os_num (record a { config = c } ∷ []) 1
  let rest = inner_004 env os_num a config ret
  if is_zero ret then rest else pure ret

-- The outer loop is left at once when the inner one ended with a failure.
unfoldable pub outer_004 : Env Call ℤ → ℤ → List Attr → List ℕ → ℤ → Proc Call ℤ
unfolding inner_004
outer_004 env os_num [] config ret = pure ret
outer_004 env os_num (a ∷ attr) config ret = do
  ret ← inner_004 env os_num a config ret
  let rest = outer_004 env os_num attr config ret
  if is_zero ret then rest else pure ret

unfoldable pub test_004 : Env Call ℤ → ℤ → Proc Call ℤ
unfolding outer_004
test_004 env os_num = outer_004 env os_num attr_004 (cpu_cycles ∷ inst_retired ∷ []) (pos 0)

unfoldable pub test_005 : Env Call ℤ → ℤ → Proc Call ℤ
unfolding numbered
test_005 env os_num = perfevent_exec env os_num (numbered 6 0) 6

-- `main` of main.c, where `usage_messages` has six entries.
unfoldable pub main : {A : Type 0} → (A → ℤ) → List (TestCase Call) → List A → Proc Call Outcome
unfolding dispatch
main atoi test_cases argv = dispatch atoi 6 test_cases argv
