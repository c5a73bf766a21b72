-- ===== src/Affinity/Moved.antt =====
-- Where a process runs, after test_mck/src/sched_setaffinity/000.c and 001.c on a system that moves it only
-- when it has to.
use mckernel_ostest_arm.Base.{
  ℕ, zero, suc, ◌-◌, ◌≡◌, ◌≤◌, ◌<◌, refl, ◌∙◌, eq_self, arith, List, [], ◌∷◌, Bool, true, false,
  none, some, ltb, leb, not, ◌&&◌, ◌==◌, if◌then◌else◌,
}
use mckernel_ostest_arm.Base.Int.{ℤ, pos, negsuc, eq_ℤ, is_zero, is_minus_one}
use mckernel_ostest_arm.Base.Trace.{Env}
use mckernel_ostest_arm.Affinity.{
  Event, Answer, cpu_alloc, cpu_free, get_cpu_id, sched_getaffinity, sched_setaffinity, write_xg,
  write_xf, kill, einval,
}
use mckernel_ostest_arm.Affinity.Cases.{with_set, or_free, run_000, run_001, migrate_cpu}

-- A CPU that there is.
abbrev pub online : (nr_cpus : ℕ) → ℤ → Bool
online nr_cpus (pos c) = ltb c nr_cpus
online nr_cpus (negsuc n) = false

abbrev pub member : ℤ → List ℤ → Bool
member c [] = false
member c (d ∷ set) = let rest = member c set in if eq_ℤ c d then true else rest

-- The CPU after a change of the set: the same one if it is in the set, else the first that there is.
abbrev pub choose : (nr_cpus : ℕ) → (current : ℤ) → List ℤ → ℤ
choose nr_cpus current [] = current
choose nr_cpus current (c ∷ set) =
    let rest = choose nr_cpus current set in
    if member current (c ∷ set) then current else if online nr_cpus c then c else rest

abbrev pub any_online : (nr_cpus : ℕ) → List ℤ → Bool
any_online nr_cpus [] = false
any_online nr_cpus (c ∷ set) =
    let rest = any_online nr_cpus set in if online nr_cpus c then true else rest

abbrev pub position : (mask_size nr_cpus : ℕ) → (start : ℤ) → List Event → ℤ
position mask_size nr_cpus start [] = start
position mask_size nr_cpus start (sched_setaffinity pid size (some set) ∷ h) =
    if eq_ℤ pid (pos 0) && leb mask_size size
    then choose nr_cpus (position mask_size nr_cpus start h) set
    else position mask_size nr_cpus start h
position mask_size nr_cpus start (sched_setaffinity pid size none ∷ h) =
    position mask_size nr_cpus start h
position mask_size nr_cpus start (cpu_alloc n ∷ h) = position mask_size nr_cpus start h
position mask_size nr_cpus start (cpu_free ∷ h) = position mask_size nr_cpus start h
position mask_size nr_cpus start (get_cpu_id ∷ h) = position mask_size nr_cpus start h
position mask_size nr_cpus start (sched_getaffinity size ∷ h) = position mask_size nr_cpus start h
position mask_size nr_cpus start (write_xg a b c d ∷ h) = position mask_size nr_cpus start h
position mask_size nr_cpus start (write_xf ∷ h) = position mask_size nr_cpus start h
position mask_size nr_cpus start (kill pid sig ∷ h) = position mask_size nr_cpus start h

-- The answers to calls of the process about itself with a set that the kernel's own fits in.
abbrev pub GetPlaced : (large_enough : Bool) → (nr_cpus : ℕ) → (current : ℤ) → Answer → Type 0
GetPlaced false nr_cpus current a = (is_minus_one a.ret ≡ true) × (a.errno ≡ einval)
GetPlaced true nr_cpus current a =
    (is_minus_one a.ret ≡ false) × (member current a.set ≡ true) × (any_online nr_cpus a.set ≡ true)

abbrev pub SetPlaced : (is_self large_enough some_online : Bool) → Answer → Type 0
SetPlaced true true some_online a = is_minus_one a.ret ≡ not some_online
SetPlaced true false some_online a = (is_minus_one a.ret ≡ true) × (a.errno ≡ einval)
SetPlaced false large_enough some_online a = Unit {0}

-- The answer to a call of the process, which runs on `current`, where the kernel's set of CPUs has
-- `mask_size` bytes and smaller ones are refused. Of a call about another process or with an invalid
-- address nothing is said.
abbrev pub Placed : (mask_size nr_cpus : ℕ) → (current : ℤ) → Event → Answer → Type 0
Placed mask_size nr_cpus current (cpu_alloc n) a = is_zero a.ret ≡ false
Placed mask_size nr_cpus current get_cpu_id a = a.ret ≡ current
Placed mask_size nr_cpus current (sched_getaffinity size) a =
    GetPlaced (leb mask_size size) nr_cpus current a
Placed mask_size nr_cpus current (sched_setaffinity pid size (some set)) a =
    SetPlaced (eq_ℤ pid (pos 0)) (leb mask_size size) (any_online nr_cpus set) a
Placed mask_size nr_cpus current e a = Unit {0}

choose-member :
    (nr_cpus : ℕ) (current : ℤ) (set : List ℤ)
    → member current set ≡ true
    → choose nr_cpus current set ≡ current
choose-member nr_cpus current [] e = refl
choose-member nr_cpus current (c ∷ set) e = rw (e) refl

migrate_cpu_lem :
    (n start : ℕ)
    → 2 ≤ n
    → migrate_cpu (pos n) (pos start) ≡ (if start == n - 1 then pos (n - 2) else pos (n - 1))
migrate_cpu_lem zero start two = elim two [ ]
migrate_cpu_lem (suc zero) start two = ground arith
migrate_cpu_lem (suc (suc k)) start two = ground arith

set_taken :
    (large_enough some_online : Bool) (a : Answer)
    → SetPlaced true large_enough some_online a
    → large_enough ≡ true
    → some_online ≡ true
    → is_minus_one a.ret ≡ false
set_taken large_enough some_online a set e f = ground arith

-- The only CPU of a set is the one that the process is moved to.
choose-one : (nr_cpus c start : ℕ) → c < nr_cpus → choose nr_cpus (pos start) (pos c ∷ []) ≡ pos c
choose-one nr_cpus c start within = ground arith

is_zero_lem : (n : ℕ) → 2 ≤ n → is_zero (pos n) ≡ false
is_zero_lem n two = ground arith

module _ (env : Env Event Answer) (cpu_alloc_size : ℤ → ℕ) (mask_size nr_cpus start : ℕ)
    (placed : (h : List Event) (e : Event)
      → Placed mask_size nr_cpus (position mask_size nr_cpus (pos start) h) e (env h e))
    (n : ℕ) (two : 2 ≤ n) (within : n ≤ nr_cpus) (large : mask_size ≤ cpu_alloc_size (pos n)) where
  run_000-stays :
      let (m, h) = run_000 env cpu_alloc_size (pos n) [] in
      (m ≡ none) × (position mask_size nr_cpus (pos start) h ≡ pos start)
  unfolding run_000 with_set or_free
  run_000-stays =
      let size = cpu_alloc_size (pos n) in
      let h1 : List Event = cpu_alloc (pos n) ∷ [] in
      let h3 = sched_getaffinity size ∷ get_cpu_id ∷ h1 in
      let own = env (get_cpu_id ∷ h1) (sched_getaffinity size) in
      let change = sched_setaffinity (pos 0) size (some own.set) in
      let made = placed [] (cpu_alloc (pos n)) in
      let before = placed h1 get_cpu_id in
      let enough : leb mask_size size ≡ true = ground arith in
      let got = placed (get_cpu_id ∷ h1) (sched_getaffinity size) in
      let (given, inside, some_online) = rw enough at got in
      let changed =
        set_taken (leb mask_size size) (any_online nr_cpus own.set) (env h3 change)
          (placed h3 change) enough some_online in
      let same = choose-member nr_cpus (pos start) own.set inside in
      let here : position mask_size nr_cpus (pos start) (change ∷ h3) ≡ pos start =
        rw enough same in
      let after = placed (change ∷ h3) get_cpu_id ∙ here in
      rw (is_zero_lem n two, made, given, changed, before, after, eq_self start, enough, same)
        (refl, refl)

  run_001-moves :
      let (m, h) = run_001 env cpu_alloc_size (pos n) [] in
      (m ≡ none)
      × (position mask_size nr_cpus (pos start) h
          ≡ (if start == n - 1 then pos (n - 2) else pos (n - 1)))
  unfolding run_001 with_set or_free
  run_001-moves =
      let size = cpu_alloc_size (pos n) in
      let h1 : List Event = cpu_alloc (pos n) ∷ [] in
      let made = placed [] (cpu_alloc (pos n)) in
      let before = placed h1 get_cpu_id in
      let target = migrate_cpu (pos n) (pos start) in
      let change = sched_setaffinity (pos 0) size (some (target ∷ [])) in
      let which = migrate_cpu_lem n start two in
      let enough : leb mask_size size ≡ true = ground arith in
      let set = placed (get_cpu_id ∷ h1) change in
      let changed = rw enough at set in
      let after = placed (change ∷ get_cpu_id ∷ h1) get_cpu_id in ground arith

  -- On a system that gives CPU_ALLOC its memory, answers calls about the process itself with sets that
  -- are not smaller than its own, refuses a change only to a set without a CPU that there is, and moves
  -- the process only when its CPU is not in its set, with two or more CPUs in the argument, no more
  -- than there are, and CPU_ALLOC_SIZE of them no smaller than the system's set: 000.c passes and
  -- leaves the process where it is, and 001.c passes and moves it to the last CPU of the argument, or
  -- to the one before if it has started on the last.
  pub own_migration :
      (let (m, h) = run_000 env cpu_alloc_size (pos n) [] in
        (m ≡ none) × (position mask_size nr_cpus (pos start) h ≡ pos start))
      × (let (m, h) = run_001 env cpu_alloc_size (pos n) [] in
          (m ≡ none)
          × (position mask_size nr_cpus (pos start) h
              ≡ (if start == n - 1 then pos (n - 2) else pos (n - 1))))
  own_migration = (run_000-stays, run_001-moves)
