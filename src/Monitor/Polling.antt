-- ===== src/Monitor/Polling.antt =====
-- When event_polling ends, and with what.
use mckernel_ostest_arm.Base.{
  ℕ, zero, suc, ◌<◌, List, ◌∷◌, ◌≡◌, Bool, true, some, arith, inl, inr, Bool-cases, eq_self,
}
use mckernel_ostest_arm.Base.Int.{ℤ, pos}
use mckernel_ostest_arm.Base.Trace.{Env}
use mckernel_ostest_arm.Monitor.{
  EventType, Call, ihk_os_get_eventfd, epoll_create, epoll_ctl_add, epoll_wait, Reply, reports,
  wait_loop, event_polling,
}

-- A history followed by `k` waits.
abbrev pub waits : ℕ → ℤ → List Call → List Call
waits zero epfd h = h
waits (suc k) epfd h = waits k epfd (epoll_wait epfd ∷ h)

-- The wait that follows the history reports the descriptor.
abbrev pub wakes : Env Call Reply → (epfd evfd : ℤ) → List Call → Bool
wakes env epfd evfd h = reports evfd (env h (epoll_wait epfd)).ret (env h (epoll_wait epfd)).event

-- The loop ends as soon as a wait reports the descriptor: if that is the wait after `k` others, it
-- returns 0 within any fuel above `k`.
wait_loop_returns :
    (env : Env Call Reply) (epfd evfd : ℤ) (k fuel : ℕ) (h : List Call)
    → k < fuel
    → wakes env epfd evfd (waits k epfd h) ≡ true
    → (wait_loop fuel env epfd evfd h).0 ≡ some (pos 0)
unfolding wait_loop
wait_loop_returns env epfd evfd k zero h lt e = elim lt [ ]
wait_loop_returns env epfd evfd zero (suc fuel) h lt e = rw e
wait_loop_returns env epfd evfd (suc k) (suc fuel) h lt e =
    elim (Bool-cases (wakes env epfd evfd h)) [
      | inl now ↦ rw now
      | inr later ↦
          rw later (wait_loop_returns env epfd evfd k fuel (epoll_wait epfd ∷ h) (omega arith) e)
    ]

-- The loop gives no other result.
wait_loop_zero :
    (env : Env Call Reply) (epfd evfd : ℤ) (fuel : ℕ) (h : List Call) (r : ℤ)
    → (wait_loop fuel env epfd evfd h).0 ≡ some r
    → (k : ℕ) × (k < fuel) × (wakes env epfd evfd (waits k epfd h) ≡ true) × (r ≡ pos 0)
unfolding wait_loop
wait_loop_zero env epfd evfd zero h r e = cc
wait_loop_zero env epfd evfd (suc fuel) h r e = elim (Bool-cases (wakes env epfd evfd h)) [
  | inl now ↦ (0, omega arith, now, ground arith)
  | inr later ↦
      let (k, lt, w, z) =
        wait_loop_zero env epfd evfd fuel (epoll_wait epfd ∷ h) r (rw later at e) in
      (suc k, omega arith, w, z)
]

module _ (env : Env Call Reply) (os_num : ℤ) (type : EventType) (h : List Call) where
  abbrev eventfd : Call
  eventfd = ihk_os_get_eventfd os_num type

  -- The history before the first wait.
  abbrev prepared : (e p : ℕ) → List Call
  prepared e p = epoll_ctl_add (pos p) (pos e) ∷ epoll_create ∷ eventfd ∷ h

  -- When the three calls that prepare the wait succeed, and the wait after `k` others returns 1 with the
  -- event's descriptor in `events[0]`, event_polling returns 0 within any fuel above `k`.
  pub event_polling_returns :
      (e p k fuel : ℕ)
      → (env h eventfd).ret ≡ pos e
      → (env (eventfd ∷ h) epoll_create).ret ≡ pos p
      → (env (epoll_create ∷ eventfd ∷ h) (epoll_ctl_add (pos p) (pos e))).ret ≡ pos 0
      → k < fuel
      → (env (waits k (pos p) (prepared e p)) (epoll_wait (pos p))).ret ≡ pos 1
      → (env (waits k (pos p) (prepared e p)) (epoll_wait (pos p))).event ≡ pos e
      → (event_polling fuel env os_num type h).0 ≡ some (pos 0)
  unfolding event_polling
  event_polling_returns e p k fuel a b c lt one there =
      let w : wakes env (pos p) (pos e) (waits k (pos p) (prepared e p)) ≡ true =
        rw (one, there) (eq_self e) in
      rw (a, b, c) (wait_loop_returns env (pos p) (pos e) k fuel (prepared e p) lt w)
