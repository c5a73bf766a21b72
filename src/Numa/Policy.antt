-- ===== src/Numa/Policy.antt =====
-- The check of the memory policies against the kernel's own map of them.
use mckernel_ostest_arm.Base.{ℕ, ◌+◌, ◌*◌, ◌%◌, ◌^◌, ◌≡◌, List, false, some, get_elem?}
use mckernel_ostest_arm.Base.Int.{ℤ, is_minus_one}
use mckernel_ostest_arm.Base.Trace.{Env}
use mckernel_ostest_arm.Numa.{Call, get_mempolicy, Reply, MbindExpect}

-- get_mempolicy succeeds, and gives the mode and the mask that a map has for the address.
abbrev pub HasPolicy : Env Call Reply → (policy : ℕ → ℤ × ℕ) → Type 0
HasPolicy env policy =
    (h : List Call) (max_node a flags : ℕ)
    → let r = env h (get_mempolicy max_node a flags) in
      (is_minus_one r.ret ≡ false) × (r.mode ≡ (policy a).0) × (r.node_mask ≡ (policy a).1)

-- The map has what is expected for the regions that are left, from region `i` on.
abbrev pub AsExpected : (policy : ℕ → ℤ × ℕ) → (page_size ptr i : ℕ) → List MbindExpect → Type 0
AsExpected policy page_size ptr i m_expect =
    (j : ℕ) (m : MbindExpect)
    → get_elem? m_expect j ≡ some m
    → policy ((ptr + page_size * (i + j)) % 2 ^ 64) ≡ (m.mode, m.node_mask)
