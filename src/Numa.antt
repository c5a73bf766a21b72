-- ===== src/Numa.antt =====
-- test_mck/src/numa.c: node masks, and the check of the memory policy of each region. malloc and
-- get_mempolicy are an environment's; messages are left out.
pub mod Masks
pub mod Policy
mod Tests
use mckernel_ostest_arm.Base.{
  ℕ, zero, suc, ◌+◌, ◌-◌, ◌*◌, ◌/◌, ◌%◌, ◌^◌, List, [], ◌∷◌, Bool, true, false, not, Option, none,
  some, ◌==◌, ltb, get_or, replicate, if◌then◌else◌,
}
use mckernel_ostest_arm.Base.Int.{ℤ, pos, negsuc, eq_ℤ, is_minus_one, is_zero}
use mckernel_ostest_arm.Base.Trace.{Env, Proc, pure, call, ◌>>=◌, ◌>>◌}

pub data Call : Type 0 where
  malloc : (size : ℕ) → Call
  get_mempolicy : (max_node addr flags : ℕ) → Call

-- What a call returns, and the mode and the first word of the mask that get_mempolicy stores.
pub record Reply : Type 0 where
  pub ret : ℤ
  pub mode : ℤ
  pub node_mask : ℕ

-- The options of arg_analyze: `-n` with what strtoul makes of its argument, or another one.
pub data Opt : Type 0 where
  opt_n : ℕ → Opt
  opt_other : Opt

unfoldable pub arg_analyze : List Opt → (max_node : ℕ) → ℕ
arg_analyze [] max_node = max_node
arg_analyze (opt_n n ∷ opts) max_node = arg_analyze opts n
arg_analyze (opt_other ∷ opts) max_node = arg_analyze opts max_node

-- `*p_nr_node_mask`
abbrev pub nr_of : (max_node : ℕ) → ℕ
nr_of max_node = let nr = ((max_node + 64 - 1) % 2 ^ 64) / 64 in if nr == 0 then 1 else nr

-- The words of the mask, or `none` for NULL; and their number.
unfoldable pub create_node_mask : Env Call Reply → (max_node : ℕ) → Proc Call (Option (List ℕ) × ℕ)
create_node_mask env max_node = do
  p ← call env (malloc (nr_of max_node * 8))
  pure ((if is_zero p.ret then none else some (replicate (nr_of max_node) 0)), nr_of max_node)

-- What the last word is compared with, `(1 << (num_bits % 64)) - 1`. `1` is an int, for which a
-- shift by 31 bits or more is undefined.
abbrev pub last_word : (num_bits : ℕ) → Option ℕ
last_word num_bits = if ltb (num_bits % 64) 31 then some (2 ^ (num_bits % 64) - 1) else none

-- The loop from word `left - 1` down, over the words before the last one: `~x != 0` is tested.
unfoldable pub check_full : (node_mask : List ℕ) → (left : ℕ) → ℤ
check_full node_mask zero = pos 0
check_full node_mask (suc i) =
    let rest = check_full node_mask i in
    if not (2 ^ 64 - 1 - get_or node_mask i 0 == 0) then negsuc 0 else rest

-- `none` is an undefined shift. A mask of no words is not looked at.
unfoldable pub check_words :
    (node_mask : List ℕ) → (nr_node_mask : ℕ) → (last : Option ℕ) → Option ℤ
unfolding check_full
check_words node_mask zero last = some (pos 0)
check_words node_mask (suc i) none = none
check_words node_mask (suc i) (some last) =
    if not (get_or node_mask i 0 == last) then some (negsuc 0) else some (check_full node_mask i)

unfoldable pub node_mask_check : (node_mask : List ℕ) → (nr_node_mask num_bits : ℕ) → Option ℤ
unfolding check_words
node_mask_check node_mask nr_node_mask num_bits =
    check_words node_mask nr_node_mask (last_word num_bits)

-- `struct mbind_expect` of numa.h
pub record MbindExpect : Type 0 where
  pub mode : ℤ
  pub node_mask : ℕ

-- The loop over the regions that are left, the first of which is region `i`. The page size is a
-- parameter.
unfoldable pub mbind_check :
    Env Call Reply → (page_size max_node ptr flags i : ℕ) → List MbindExpect → Proc Call ℤ
mbind_check env page_size max_node ptr flags i [] = pure (pos 0)
mbind_check env page_size max_node ptr flags i (m ∷ m_expect) = do
  r ← call env (get_mempolicy max_node ((ptr + page_size * i) % 2 ^ 64) flags)
  let rest = mbind_check env page_size max_node ptr flags (i + 1) m_expect
  if is_minus_one r.ret
      then pure (negsuc 0)
      else if not (eq_ℤ r.mode m.mode)
      then pure (negsuc 0)
      else if not (r.node_mask == m.node_mask)
      then pure (negsuc 0)
      else rest
