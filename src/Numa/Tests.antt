-- ===== src/Numa/Tests.antt =====
-- Masks of two words, and a kernel that interleaves the pages of two regions over nodes 0 and 1.
use mckernel_ostest_arm.Base.{
  ℕ, suc, ◌+◌, ◌-◌, ◌/◌, ◌%◌, ◌^◌, ◌≡◌, ◌↔◌, refl, List, [], ◌∷◌, some, arith,
}
use mckernel_ostest_arm.Base.Int.{ℤ, pos, negsuc}
use mckernel_ostest_arm.Base.Trace.{Env}
use mckernel_ostest_arm.Numa.{Call, Reply, check_full, check_words, node_mask_check, MbindExpect}
use mckernel_ostest_arm.Numa.Masks.{value, shifted, node_mask_check_iff}

-- The first 70 nodes.
abbrev nodes : List ℕ
nodes = (2 ^ 64 - 1) ∷ 63 ∷ []

seventy : node_mask_check nodes 2 70 ≡ some (pos 0)
unfolding node_mask_check check_words check_full
seventy = refl

-- A mask in which all of 64 nodes are set is refused: the last word is compared with 0.
sixty_four : node_mask_check ((2 ^ 64 - 1) ∷ []) 1 64 ≡ some (negsuc 0)
unfolding node_mask_check check_words check_full
sixty_four = refl

node_mask_check_iff_example :
    (node_mask_check nodes (suc (70 / 64)) 70 ≡ some (pos 0))
    ↔ (value nodes + 1 ≡ shifted (70 / 64) (2 ^ (70 % 64)))
node_mask_check_iff_example =
    node_mask_check_iff nodes 70 (omega arith, (omega arith, tt)) refl (omega arith)

-- MPOL_INTERLEAVE is 3.
abbrev interleaved : ℕ → ℤ × ℕ
interleaved a = (pos 3, 3)

abbrev kernel : Env Call Reply
kernel h c = record { ret = pos 0; mode = pos 3; node_mask = 3 }

abbrev regions : List MbindExpect
regions = record { mode = pos 3; node_mask = 3 } ∷ record { mode = pos 3; node_mask = 1 } ∷ []
