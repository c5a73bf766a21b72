-- ===== src/Mempolicy/Regions/Painted.antt =====
-- Which policy each page has after the calls of the test cases 015.c to 023.c of test_mck/src/mbind.
use mckernel_ostest_arm.Base.{
  ℕ, zero, suc, ◌+◌, ◌*◌, ◌%◌, ◌^◌, ◌≤◌, ◌<◌, List, [], ◌∷◌, ◌++◌, map, Option, none, some, ◌≡◌,
  ◌⊎◌, inl, inr, refl, ap, ◌∙◌, false, arith, leb, ltb, ◌&&◌, if◌then◌else◌, Bool-cases, get_or,
  set,
}
use mckernel_ostest_arm.Base.Int.{ℤ, pos, negsuc, is_minus_one}
use mckernel_ostest_arm.Base.Trace.{Env}
use mckernel_ostest_arm.Numa
use mckernel_ostest_arm.Numa.{MbindExpect}
use mckernel_ostest_arm.Mempolicy.{Event, numa, mbind, get_mempolicy, Answer}
use mckernel_ostest_arm.Mempolicy.Constants.{mpol_f_addr}
use mckernel_ostest_arm.Mempolicy.Regions.{MbindArgs, bind_all, num_region}

-- Mode and mask of an address by the calls made so far, newest first: those of the last mbind of a
-- range that it lies in.
abbrev pub policy_of : List Event → (a : ℕ) → ℤ × ℕ
policy_of [] a = (pos 0, 0)
policy_of (mbind addr len mode (some (w ∷ ws)) maxnode flags ∷ h) a =
    if leb addr a && ltb a (addr + len) then (mode, w) else policy_of h a
policy_of (e ∷ h) a = policy_of h a

-- What the arguments say of page `i`, which had `was` before: the last one that covers it counts.
abbrev pub painted : List MbindArgs → (i : ℕ) → (was : ℤ × ℕ) → ℤ × ℕ
painted [] i was = was
painted (m ∷ m_args) i was =
    painted m_args i
      (if leb m.npoff i && ltb i (m.npoff + m.npages) then (pos m.mode, m.node_mask) else was)

abbrev pub outcome : List MbindArgs → (i left : ℕ) → List MbindExpect
outcome m_args i zero = []
outcome m_args i (suc left) =
    let (mode, mask) = painted m_args i (pos 0, 0) in
    record { mode = mode; node_mask = mask } ∷ outcome m_args (i + 1) left

-- The ranges lie in the pages, and the policies are ones that mbind takes.
abbrev pub Valid : List MbindArgs → Type 0
Valid [] = 0 ≤ 0
Valid (m ∷ m_args) =
    (m.npoff + m.npages ≤ num_region) × (m.mode ≤ 3) × (0 < m.node_mask) × Valid m_args

-- What mbind and get_mempolicy document: a mask of nodes is accepted for a page range, and reported
-- for the addresses in it until the next mbind.
abbrev pub KeepsPolicies : Env Event Answer → Type 0
KeepsPolicies env =
    ((h : List Event) (a len mode w : ℕ)
      → (3 < mode)
        ⊎ ((w ≡ 0) ⊎ ((env h (mbind a len (pos mode) (some (w ∷ [])) 64 0)).ret ≡ pos 0)))
    × ((h : List Event) (mode : Option ℤ) (mask : Option (List ℕ)) (maxnode a flags : ℕ)
        → (env h (get_mempolicy mode mask maxnode a flags)).ret ≡ pos 0)
    × ((h : List Event) (maxnode a flags : ℕ)
        → let r = env h (numa (Numa.get_mempolicy maxnode a flags)) in
          (is_minus_one r.ret ≡ false)
          × (r.mode ≡ (policy_of h a).0)
          × (get_or r.mask 0 0 ≡ (policy_of h a).1))

pub policy_of-numa :
    (calls : List Numa.Call) (h : List Event) (a : ℕ)
    → policy_of (map numa calls ++ h) a ≡ policy_of h a
policy_of-numa [] h a = refl
policy_of-numa (c ∷ calls) h a = policy_of-numa calls h a

-- A page begins before a boundary and ends there at the latest, or begins at it or behind it.
side : (i n p : ℕ) → ((i < n) × (p * i + p ≤ n * p)) ⊎ ((n ≤ i) × (n * p ≤ p * i))
side i n p = elim (Bool-cases (ltb i n)) [
  | inl lt ↦ inl (before (ground arith))
  | inr ge ↦ inr (behind (ground arith))
]
  where
    before : i < n → (i < n) × (p * i + p ≤ n * p)
    before lt = (lt, grind arith)

    behind : n ≤ i → (n ≤ i) × (n * p ≤ p * i)
    behind le = (le, grind arith)

covered :
    (b i n k p : ℕ)
    → 0 < p
    → (leb (b + n * p) (b + p * i) && ltb (b + p * i) (b + n * p + k * p))
      ≡ (leb n i && ltb i (n + k))
covered b i n k p pos_p =
    let sum : (n + k) * p ≡ n * p + k * p = grind arith in
    elim (side i n p) [
      | inl before ↦ ground arith
      | inr behind ↦ elim (side i (n + k) p) [
        | inl inside ↦ ground arith
        | inr outside ↦ ground arith
      ]
    ]

module _ (env : Env Event Answer) (keeps : KeepsPolicies env) (page_size max_node buf : ℕ)
    (some_page : 0 < page_size) (room : buf + page_size * num_region < 2 ^ 64) where
  is_accepted :
      (m : MbindArgs) (h : List Event) (addr : ℕ)
      → m.mode ≤ 3
      → 0 < m.node_mask
      → (env h (mbind addr (m.npages * page_size) (pos m.mode) (some (m.node_mask ∷ [])) 64 0)).ret
        ≡ pos 0
  is_accepted m h addr mode some_node =
      elim (keeps.0 h addr (m.npages * page_size) m.mode m.node_mask) [
        | inl large ↦ absurd (omega arith)
        | inr (inl empty) ↦ absurd (omega arith)
        | inr (inr accepted) ↦ accepted
      ]

  first_painted :
      (m : MbindArgs) (h : List Event) (i : ℕ)
      → m.npoff + m.npages ≤ num_region
      → let addr = (buf + m.npoff * page_size) % 2 ^ 64 in
        let a = buf + page_size * i in
        (if leb addr a && ltb a (addr + m.npages * page_size)
          then (pos m.mode, m.node_mask)
          else policy_of h a)
        ≡ (if leb m.npoff i && ltb i (m.npoff + m.npages)
            then (pos m.mode, m.node_mask)
            else policy_of h a)
  first_painted m h i fits =
      let off : m.npoff * page_size ≤ page_size * num_region = grind arith in
      let here : (buf + m.npoff * page_size) % 2 ^ 64 ≡ buf + m.npoff * page_size = omega arith in
      rw (here, covered buf i m.npoff m.npages page_size some_page) refl

  pub bind_all-painted :
      (m_args : List MbindArgs) (mask : List ℕ) (h : List Event)
      → Valid m_args
      → let (stop, h') = bind_all env page_size max_node buf m_args mask h in
        (stop ≡ none)
        × ((i : ℕ)
            → policy_of h' (buf + page_size * i)
              ≡ painted m_args i (policy_of h (buf + page_size * i)))
  unfolding bind_all
  bind_all-painted [] mask h valid = (refl, λ i. refl)
  bind_all-painted (m ∷ m_args) mask h (fits, mode, some_node, valid) =
      let (accepts, answers, reports) = keeps in
      let addr = (buf + m.npoff * page_size) % 2 ^ 64 in
      let e1 = mbind addr (m.npages * page_size) (pos m.mode) (some (m.node_mask ∷ [])) 64 0 in
      let e2 = get_mempolicy (some (negsuc 0)) (some (set mask 0 0)) max_node addr mpol_f_addr in
      let accepted : (env h e1).ret ≡ pos 0 = is_accepted m h addr mode some_node in
      let (ends, paints) = bind_all-painted m_args (env (e1 ∷ h) e2).mask (e2 ∷ e1 ∷ h) valid in
      rw
        (
          accepted,
          answers (e1 ∷ h) (some (negsuc 0)) (some (set mask 0 0)) max_node addr mpol_f_addr,
        )
        (ends, λ i. paints i ∙ ap (painted m_args i) (first_painted m h i fits))
