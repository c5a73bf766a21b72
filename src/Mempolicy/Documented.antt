-- ===== src/Mempolicy/Documented.antt =====
-- What mbind(2), set_mempolicy(2) and get_mempolicy(2) of Linux say of the calls of the test cases, as a
-- check of the asserts of a sequence of statements against what is known after each of them.
use mckernel_ostest_arm.Base.{
  ℕ, zero, suc, ◌+◌, ◌-◌, ◌*◌, ◌/◌, ◌%◌, ◌^◌, ◌≤◌, ◌<◌, ◌≡◌, ◌≢◌, ◌⊎◌, Bool, true, false, Option,
  none, ◌==◌, if◌then◌else◌,
}
use mckernel_ostest_arm.Base.Int.{ℤ, pos, negsuc}
use mckernel_ostest_arm.Mempolicy.Constants.{
  mpol_preferred, mpol_bind, mpol_interleave, eperm, eio, einval,
}
use mckernel_ostest_arm.Mempolicy.{
  Mask, null, own, other, word, Addr, at, mapped, Expect, succeeds, fails, refused, refused_not,
}

-- The nodes of a mask: a word of them, or all of them below a number.
pub data Nodes : Type 0 where
  known : ℕ → Nodes
  below : ℕ → Nodes

-- The variable `mode`: a value, or the number of some node.
pub data Mode : Type 0 where
  exactly : ℤ → Mode
  some_node : Mode

-- What is known on the way: the policy of the process and of the address that mbind was called with,
-- the variables, whether the other mask is filled, and whether the page has been written to.
pub record Known : Type 0 where
  pub task : ℤ × Nodes
  pub bound : Option (Addr × ℤ × Nodes)
  pub mode : Mode
  pub mask : Nodes
  pub is_filled : Bool
  pub is_touched : Bool

abbrev pub unknown : Known
unknown = record {
  task = (pos 0, known 0);
  bound = none;
  mode = exactly (negsuc 0);
  mask = known 0;
  is_filled = false;
  is_touched = false;
}

-- A mask of `maxnode` has the bits below `maxnode - 1`.
abbrev pub taken : Mask → (maxnode : ℕ) → Nodes
taken null maxnode = known 0
taken own maxnode = known 0
taken other maxnode = below (maxnode - 1)
taken (word w) maxnode = known (w % 2 ^ (maxnode - 1))

abbrev pub IsEmpty : Nodes → Type 0
IsEmpty (known n) = n ≡ 0
IsEmpty (below n) = n ≡ 0

abbrev pub HasNode : Nodes → Type 0
HasNode (known n) = 0 < n
HasNode (below n) = 0 < n

-- The lowest bit of `n`, looked for from the bit `p` on.
abbrev pub lowest : (left p n : ℕ) → ℕ
lowest zero p n = 0
lowest (suc left) p n = let rest = lowest left (2 * p) n in if n / p % 2 == 1 then p else rest

abbrev pub first_node : Nodes → Nodes
first_node (known n) = known (lowest 64 1 n)
first_node (below n) = known (if n == 0 then 0 else 1)

-- The mode without its flags, MPOL_F_STATIC_NODES and MPOL_F_RELATIVE_NODES.
abbrev pub base : (mode : ℕ) → ℕ
base mode = mode % 2 ^ 14

-- MPOL_PREFERRED keeps one node.
abbrev pub policy : (mode : ℤ) → Nodes → ℤ × Nodes
policy (negsuc n) nodes = (negsuc n, nodes)
policy (pos m) nodes = (pos m, if base m == mpol_preferred then first_node nodes else nodes)

module _ (page_size : ℕ) where
  abbrev pub MaskFits : Known → Mask → (maxnode : ℕ) → Type 0
  MaskFits s null maxnode = 0 ≤ 0
  MaskFits s own maxnode = (0 < maxnode) × (maxnode - 1 ≤ page_size * 8)
  MaskFits s other maxnode = (0 < maxnode) × (maxnode - 1 ≤ page_size * 8) × (s.is_filled ≡ true)
  MaskFits s (word w) maxnode = (0 < maxnode) × (maxnode - 1 ≤ page_size * 8)

  abbrev pub MaskFails : Mask → (maxnode : ℕ) → Type 0
  MaskFails null maxnode = 1 ≤ 0
  MaskFails mask maxnode = (maxnode ≡ 0) ⊎ (page_size * 8 < maxnode - 1)

  -- A policy that is taken: MPOL_DEFAULT without nodes, MPOL_PREFERRED, or another one with nodes.
  abbrev pub Takes : Known → (mode : ℤ) → Mask → (maxnode : ℕ) → Type 0
  Takes s (negsuc n) mask maxnode = 1 ≤ 0
  Takes s (pos m) mask maxnode =
      (m / 2 ^ 14 ≤ 2)
      × MaskFits s mask maxnode
      × (((base m ≡ 0) × IsEmpty (taken mask maxnode))
          ⊎ ((base m ≡ mpol_preferred)
              ⊎ ((mpol_bind ≤ base m) × (base m ≤ mpol_interleave) × HasNode (taken mask maxnode))))

  -- One that is refused with EINVAL.
  abbrev pub Refuses : (mode : ℤ) → Mask → (maxnode : ℕ) → Type 0
  Refuses (negsuc n) mask maxnode = 0 ≤ 0
  Refuses (pos m) mask maxnode =
      (2 < m / 2 ^ 14)
      ⊎ ((mpol_interleave < base m)
          ⊎ (MaskFails mask maxnode
              ⊎ (((base m ≡ 0) × HasNode (taken mask maxnode))
                  ⊎ ((mpol_bind ≤ base m) × IsEmpty (taken mask maxnode)))))

  -- mmap gives a whole page.
  abbrev pub Aligned : Addr → (len : ℕ) → Type 0
  Aligned mapped len = 0 ≤ 0
  Aligned (at a) len = (a % page_size ≡ 0) × (a + len < 2 ^ 64)

  abbrev pub Misplaced : Addr → (len : ℕ) → Type 0
  Misplaced mapped len = 1 ≤ 0
  Misplaced (at a) len = (0 < a % page_size) ⊎ (2 ^ 64 ≤ a + len)

  abbrev pub BindSound :
      Known → Addr → (len : ℕ) → (mode : ℤ) → Mask → (maxnode flags : ℕ) → Expect → Type 0
  BindSound s a len mode mask maxnode flags succeeds =
      (flags ≤ 3) × Aligned a len × Takes s mode mask maxnode
  BindSound s a len mode mask maxnode flags fails =
      (8 ≤ flags) ⊎ (Misplaced a len ⊎ Refuses mode mask maxnode)
  BindSound s a len mode mask maxnode flags (refused e) =
      ((e ≡ einval) × (Misplaced a len ⊎ Refuses mode mask maxnode))
      ⊎ ((e ≡ eperm) × (4 ≤ flags) × (flags < 8))
  BindSound s a len mode mask maxnode flags (refused_not e) =
      (flags % 2 ≡ 1) × (s.is_touched ≡ true) × (e ≢ eio)

  abbrev pub AssignSound : Known → (mode : ℤ) → Mask → (maxnode : ℕ) → Expect → Type 0
  AssignSound s mode mask maxnode succeeds = Takes s mode mask maxnode
  AssignSound s mode mask maxnode fails = Refuses mode mask maxnode
  AssignSound s mode mask maxnode (refused e) = (e ≡ einval) × Refuses mode mask maxnode
  AssignSound s mode mask maxnode (refused_not e) = (e ≢ einval) × Refuses mode mask maxnode
