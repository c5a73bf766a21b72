-- ===== src/Mempolicy/Sound.antt =====
-- The asserts of the test cases of test_mck/src/mbind, set_mempolicy and get_mempolicy, checked against
-- what Linux documents.
pub mod Cases
use mckernel_ostest_arm.Base.{
  ℕ, zero, suc, ◌+◌, ◌-◌, ◌*◌, ◌/◌, ◌%◌, ◌^◌, ◌≤◌, ◌<◌, ◌≡◌, ◌≢◌, ◌⊎◌, List, [], ◌∷◌, Bool, true,
  false, Option, none, some, ◌==◌, if◌then◌else◌, arith,
}
use mckernel_ostest_arm.Base.Int.{ℤ, pos, negsuc}
use mckernel_ostest_arm.Mempolicy.Constants.{
  mpol_interleave, mpol_f_node, mpol_f_addr, mpol_f_mems_allowed, efault, einval,
}
use mckernel_ostest_arm.Mempolicy.{
  Mask, null, own, other, word, Addr, at, mapped, Expect, succeeds, fails, refused, refused_not,
  Step, need_max_node, set_mode, fill_other, all_zero, touch_buf, need_nodes, create, create_other,
  put, put_other, bind, assign, fetch, mode_is, word_is, is_full, mode_below, map_buf, unmap_buf,
  Case,
}
use mckernel_ostest_arm.Mempolicy.Documented.{
  Nodes, known, below, Mode, exactly, some_node, Known, unknown, taken, policy, BindSound,
  AssignSound, base,
}

abbrev has_addr : (flags : ℕ) → Bool
has_addr flags = flags / 2 % 2 == 1

-- A place that the address space of a process never has: NULL, or the upper half.
abbrev IsFault : Addr → Type 0
IsFault mapped = 1 ≤ 0
IsFault (at a) = (a ≡ 0) ⊎ (2 ^ 63 ≤ a)

abbrev IsSame : Addr → Addr → Type 0
IsSame mapped mapped = 0 ≤ 0
IsSame (at a) (at b) = a ≡ b
IsSame a b = 1 ≤ 0

-- The address is the one of the mbind before, if there is one.
abbrev IsKnown : Known → Addr → Type 0
IsKnown s a = elim s.bound [ none ↦ 0 ≤ 0 | some (b, m, nodes) ↦ IsSame a b ]

abbrev policy_at : Known → ℤ × Nodes
policy_at s = elim s.bound [ none ↦ (pos 0, known 0) | some (b, m, nodes) ↦ (m, nodes) ]

abbrev BaseIs : (mode : ℤ) → (base : ℕ) → Type 0
BaseIs (pos m) b = base m ≡ b
BaseIs (negsuc n) b = 1 ≤ 0

abbrev BaseIsNot : (mode : ℤ) → (base : ℕ) → Type 0
BaseIsNot (pos m) b = base m ≢ b
BaseIsNot (negsuc n) b = 0 ≤ 0

module _ (page_size max_node : ℕ) where
  abbrev WordsFit : Mask → (maxnode : ℕ) → Type 0
  WordsFit own maxnode = max_node ≤ maxnode
  WordsFit mask maxnode = 0 ≤ 0

  abbrev WordsFail : Mask → (maxnode : ℕ) → Type 0
  WordsFail own maxnode = maxnode < max_node
  WordsFail mask maxnode = 1 ≤ 0

  -- Without flags for the process and no address; for an address; for the number of a node at an
  -- address; or for the nodes that are allowed.
  abbrev FetchSound : Known → Mask → (maxnode : ℕ) → Addr → (flags : ℕ) → Expect → Type 0
  FetchSound s mask maxnode a flags succeeds =
      WordsFit mask maxnode
      × (((flags ≡ 0) × IsSame a (at 0))
          ⊎ (((flags ≡ mpol_f_addr) × IsKnown s a)
              ⊎ ((flags ≡ mpol_f_addr + mpol_f_node)
                  ⊎ ((flags ≡ mpol_f_mems_allowed) × IsSame a (at 0)))))
  FetchSound s mask maxnode (at a) flags (refused e) =
      ((e ≡ einval)
        × ((8 ≤ flags)
            ⊎ ((4 < flags)
                ⊎ (((has_addr flags ≡ false) × (0 < a))
                    ⊎ (((flags ≡ mpol_f_node) × BaseIsNot s.task.0 mpol_interleave)
                        ⊎ WordsFail mask maxnode)))))
      ⊎ ((e ≡ efault) × (has_addr flags ≡ true) × IsFault (at a))
  FetchSound s mask maxnode a flags e = 1 ≤ 0

  -- What is known after a call of get_mempolicy that has succeeded.
  abbrev fetched : Known → (flags : ℕ) → Mode × Nodes
  fetched s flags =
      if flags == 0
      then (exactly s.task.0, s.task.1)
      else if flags == mpol_f_addr
      then (exactly (policy_at s).0, (policy_at s).1)
      else if flags == mpol_f_mems_allowed
      then (exactly (pos 0), below max_node)
      else (some_node, known 0)

  abbrev after_fetch : Known → (wants_mode : Bool) → Mask → (flags : ℕ) → Known
  after_fetch s wants_mode own flags = record s {
    mode = if wants_mode then (fetched s flags).0 else s.mode;
    mask = (fetched s flags).1;
  }
  after_fetch s wants_mode mask flags = record s {
    mode = if wants_mode then (fetched s flags).0 else s.mode;
  }

  abbrev ModeIs : Mode → ℤ → Type 0
  ModeIs (exactly m) n = m ≡ n
  ModeIs some_node n = 1 ≤ 0

  abbrev NodeBelow : Mode → ℕ → Type 0
  NodeBelow (exactly m) n = 1 ≤ 0
  NodeBelow some_node n = n ≡ max_node

  abbrev WordIs : Nodes → ℕ → Type 0
  WordIs (known w) n = w ≡ n
  WordIs (below k) n = 1 ≤ 0

  abbrev BelowIs : Nodes → ℕ → Type 0
  BelowIs (known w) n = 1 ≤ 0
  BelowIs (below k) n = k ≡ n

  -- Every assert is what the documentation promises at its place. node_mask_check accepts a full mask
  -- unless its last word is empty or full of 31 nodes or more, where its shift of an int is undefined,
  -- as is the one that fills the other mask.
  abbrev pub SoundFrom : Known → List Step → Type 0
  SoundFrom s [] = 0 ≤ 0
  SoundFrom s (set_mode ∷ steps) = SoundFrom (record s { mode = exactly (negsuc 0) }) steps
  SoundFrom s (fill_other ∷ steps) =
      (max_node % 64 + 1 < 31) × SoundFrom (record s { is_filled = true }) steps
  SoundFrom s (all_zero ∷ steps) = WordIs s.mask 0 × SoundFrom s steps
  SoundFrom s (touch_buf ∷ steps) = SoundFrom (record s { is_touched = true }) steps
  SoundFrom s (create n ∷ steps) = SoundFrom (record s { mask = known 0 }) steps
  SoundFrom s (put w ∷ steps) = SoundFrom (record s { mask = known w }) steps
  SoundFrom s (bind a len mode mask maxnode flags succeeds ∷ steps) =
      BindSound page_size s a len mode mask maxnode flags succeeds
      × SoundFrom (record s { bound = some (a, mode, (policy mode (taken mask maxnode)).1) }) steps
  SoundFrom s (bind a len mode mask maxnode flags e ∷ steps) =
      BindSound page_size s a len mode mask maxnode flags e × SoundFrom s steps
  SoundFrom s (assign mode mask maxnode succeeds ∷ steps) =
      AssignSound page_size s mode mask maxnode succeeds
      × SoundFrom (record s { task = policy mode (taken mask maxnode) }) steps
  SoundFrom s (assign mode mask maxnode e ∷ steps) =
      AssignSound page_size s mode mask maxnode e × SoundFrom s steps
  SoundFrom s (fetch wants_mode mask maxnode a flags succeeds ∷ steps) =
      FetchSound s mask maxnode a flags succeeds
      × SoundFrom (after_fetch s wants_mode mask flags) steps
  SoundFrom s (fetch wants_mode mask maxnode a flags e ∷ steps) =
      FetchSound s mask maxnode a flags e × SoundFrom s steps
  SoundFrom s (mode_is m ∷ steps) = ModeIs s.mode m × SoundFrom s steps
  SoundFrom s (word_is w ∷ steps) = WordIs s.mask w × SoundFrom s steps
  SoundFrom s (is_full n ∷ steps) =
      (BelowIs s.mask n × (0 < n % 64) × (n % 64 < 31)) × SoundFrom s steps
  SoundFrom s (mode_below n ∷ steps) = NodeBelow s.mode n × SoundFrom s steps
  SoundFrom s (step ∷ steps) = SoundFrom s steps

  abbrev pub Sound : Case → Type 0
  Sound c = SoundFrom unknown c.steps
