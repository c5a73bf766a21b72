-- ===== src/Monitor.antt =====
-- condition_monitor/src: waiting for an event of the co-kernel (common.c), its status and the three
-- test cases. ihklib and epoll answer through an environment; printing is left out.
pub mod Polling
mod Tests
use mckernel_ostest_arm.Base.{
  ℕ, zero, suc, ◌+◌, List, [], ◌∷◌, Bool, true, false, ◌||◌, Option, none, some, ltb, take, length,
  if◌then◌else◌,
}
use mckernel_ostest_arm.Base.Int.{ℤ, pos, negsuc, is_neg, is_zero, is_minus_one, eq_ℤ, pos_part}
use mckernel_ostest_arm.Base.Trace.{Env, Proc, pure, call, ◌>>=◌}
use mckernel_ostest_arm.Dispatch.{Outcome, TestCase, dispatch}

pub data EventType : Type 0 where
  eventfd_type_oom eventfd_type_status : EventType

pub data Call : Type 0 where
  ihk_os_get_status : ℤ → Call
  ihk_os_get_eventfd : ℤ → EventType → Call
  epoll_create : Call
  epoll_ctl_add : ℤ → ℤ → Call
  epoll_wait : ℤ → Call

-- What a call returns, the errno that it leaves, and the descriptor in `events[0]` after a wait. The
-- array has one element and maxevents is 1, so that epoll_wait returns no more than 1.
pub record Reply : Type 0 where
  pub ret : ℤ
  pub errno : ℤ
  pub event : ℤ

unfoldable pub get_status : Env Call Reply → ℤ → Proc Call ℤ
get_status env os_num = do status ← call env (ihk_os_get_status os_num); pure status.ret

-- The `for` loop over the `nfd` events that became ready: none, or the one.
abbrev pub reports : (evfd nfd event : ℤ) → Bool
reports evfd nfd event = if ltb 0 (pos_part nfd) then eq_ℤ event evfd else false

-- The endless `do` loop, cut off after `fuel` waits, which is `none`.
unfoldable pub wait_loop : ℕ → Env Call Reply → (epfd evfd : ℤ) → Proc Call (Option ℤ)
wait_loop zero env epfd evfd = pure none
wait_loop (suc fuel) env epfd evfd = do
  nfd ← call env (epoll_wait epfd)
  let again = wait_loop fuel env epfd evfd
  if reports evfd nfd.ret nfd.event then pure (some (pos 0)) else again

unfoldable pub event_polling : ℕ → Env Call Reply → ℤ → EventType → Proc Call (Option ℤ)
unfolding wait_loop
event_polling fuel env os_num type = do
  evfd ← call env (ihk_os_get_eventfd os_num type)
  if is_neg evfd.ret then pure (some evfd.ret) else do
    epfd ← call env epoll_create
    if is_minus_one epfd.ret then pure (some epfd.errno) else do
      lib_ret ← call env (epoll_ctl_add epfd.ret evfd.ret)
      if is_zero lib_ret.ret
          then wait_loop fuel env epfd.ret evfd.ret
          else pure (some lib_ret.errno)

-- `status_strings` has eight entries.
abbrev pub nr_status_strings : ℕ
nr_status_strings = 8

unfoldable pub test_002 : Env Call Reply → ℤ → ℤ → Proc Call ℤ
unfolding get_status
test_002 env tp_num os_num = do
  status ← get_status env os_num
  if is_neg status
      then pure (negsuc 0)
      else if ltb (pos_part status) nr_status_strings
      then pure (pos 0)
      else pure (negsuc 0)

-- 000.c and 001.c; the result is given when the wait has ended.
unfoldable pub test_000 : ℕ → Env Call Reply → ℤ → ℤ → Proc Call (Option ℤ)
unfolding event_polling
test_000 fuel env tp_num os_num = event_polling fuel env os_num eventfd_type_oom

unfoldable pub test_001 : ℕ → Env Call Reply → ℤ → ℤ → Proc Call (Option ℤ)
unfolding event_polling
test_001 fuel env tp_num os_num = event_polling fuel env os_num eventfd_type_status

-- `main` of main.c, where `usage_messages` has three entries.
unfoldable pub main : {A : Type 0} → (A → ℤ) → List (TestCase Call) → List A → Proc Call Outcome
unfolding dispatch
main atoi test_cases argv = dispatch atoi 3 test_cases argv
