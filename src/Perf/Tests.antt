-- ===== src/Perf/Tests.antt =====
-- Measurements on a library that works, and on one without memory.
use mckernel_ostest_arm.Base.{◌+◌, List, [], ◌∷◌, ◌≡◌, refl, ◌⊎◌, true, false}
use mckernel_ostest_arm.Base.Int.{ℤ, pos}
use mckernel_ostest_arm.Base.Trace.{Env}
use mckernel_ostest_arm.Perf.{
  Attr, event_enable, event_disable, event_destroy, Call, setperfevent, perfctl, calloc,
  getperfevent, free, finish, perfevent_exec,
}
use mckernel_ostest_arm.Perf.Cases.{with_config, cpu_cycles}
use mckernel_ostest_arm.Perf.Protocol.{
  allocated, freed, phase, idle, running, starved, perfevent_exec_balanced, perfevent_exec_quiesces,
}

-- One event is registered, and calloc gives `memory`.
abbrev lib : (memory : ℤ) → Env Call ℤ
lib memory h (setperfevent os_num attr n) = pos 1
lib memory h (perfctl os_num ctl) = pos 0
lib memory h (calloc n size) = memory
lib memory h (getperfevent os_num countval n) = pos 0
lib memory h (free p) = pos 0

abbrev works : Env Call ℤ
works = lib (pos 4096)

abbrev cycles : List Attr
cycles = with_config cpu_cycles ∷ []

one_cycle : perfevent_exec works (pos 0) cycles 1 [] ≡ (
  pos 0,
  free (pos 4096)
      ∷ perfctl (pos 0) event_destroy
      ∷ perfctl (pos 0) event_disable
      ∷ getperfevent (pos 0) (pos 4096) 1
      ∷ calloc 8 1
      ∷ perfctl (pos 0) event_enable
      ∷ setperfevent (pos 0) cycles 1
      ∷ [],
)
unfolding perfevent_exec finish
one_cycle = refl

perfevent_exec_balanced_example :
    let h' = (perfevent_exec works (pos 0) cycles 1 []).1 in allocated works h' + 0 ≡ freed h' + 0
perfevent_exec_balanced_example = perfevent_exec_balanced works (pos 0) cycles 1 []

perfevent_exec_quiesces_example :
    let h' = (perfevent_exec works (pos 0) cycles 1 []).1 in
    ((phase works h' ≡ idle) × (starved works h' ≡ false))
    ⊎ ((phase works h' ≡ running) × (starved works h' ≡ true))
unfolding perfevent_exec finish
perfevent_exec_quiesces_example = perfevent_exec_quiesces works (pos 0) cycles 1 [] refl refl
