-- ===== src/Monitor/Tests.antt =====
-- Waiting for an event that the third wait reports.
use mckernel_ostest_arm.Base.{[], ◌≡◌, refl, some, length, arith, ltb, if◌then◌else◌}
use mckernel_ostest_arm.Base.Int.{ℤ, pos}
use mckernel_ostest_arm.Base.Trace.{Env}
use mckernel_ostest_arm.Monitor.{
  eventfd_type_oom, Call, ihk_os_get_status, ihk_os_get_eventfd, epoll_create, epoll_ctl_add,
  epoll_wait, Reply, event_polling,
}
use mckernel_ostest_arm.Monitor.Polling.{event_polling_returns}

abbrev reply : (ret event : ℤ) → Reply
reply ret event = record { ret = ret; errno = pos 0; event = event }

-- The event's descriptor is 7, the epoll descriptor 8. The first two waits report something else.
abbrev lib : Env Call Reply
lib h (ihk_os_get_status os_num) = reply (pos 3) (pos 0)
lib h (ihk_os_get_eventfd os_num type) = reply (pos 7) (pos 0)
lib h epoll_create = reply (pos 8) (pos 0)
lib h (epoll_ctl_add epfd evfd) = reply (pos 0) (pos 0)
lib h (epoll_wait epfd) = if ltb (length h) 5 then reply (pos 1) (pos 9) else reply (pos 1) (pos 7)

event_polling_returns_example : (event_polling 3 lib (pos 0) eventfd_type_oom []).0 ≡ some (pos 0)
event_polling_returns_example =
    event_polling_returns lib (pos 0) eventfd_type_oom [] 7 8 2 3 refl refl refl (omega arith) refl
      refl
