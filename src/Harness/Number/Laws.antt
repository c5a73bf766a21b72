-- ===== src/Harness/Number/Laws.antt =====
-- Which texts test_mck_strtoul converts.
use mckernel_ostest_arm.Base.{
  ℕ, ◌+◌, ◌-◌, ◌%◌, ◌^◌, ◌≤◌, ◌<◌, ◌≡◌, true, false, some, arith, ltb, if◌then◌else◌,
}
use mckernel_ostest_arm.Base.Int.{pos}
use mckernel_ostest_arm.Harness.Number.{Strtoll, test_mck_strtoul, align_up}

-- What the C standard says of strtoll for a text whose digits denote `n`, without a sign.
abbrev pub strtoll_of : ℕ → Strtoll
strtoll_of n =
    if ltb n (2 ^ 63)
    then record { value = pos n; no_digits = false; erange = false }
    else record { value = pos (2 ^ 63 - 1); no_digits = false; erange = true }

-- A text without a sign that denotes a number below 2^63 is converted to it. One that denotes a
-- larger number, also if an unsigned long can hold it, gives the default value.
pub test_mck_strtoul_range :
    (n default_value : ℕ)
    → test_mck_strtoul (some (strtoll_of n)) default_value
      ≡ (if ltb n (2 ^ 63) then n else default_value)
unfolding test_mck_strtoul
test_mck_strtoul_range n d = ground arith

-- For a power of two and an address that does not overflow, aligning up gives the least multiple of
-- the size that is no less than the address.
pub align_up_least :
    (addr size : ℕ)
    → 0 < size
    → addr + size ≤ 2 ^ 64
    → (align_up addr size % size ≡ 0)
      × (addr ≤ align_up addr size)
      × (align_up addr size < addr + size)
unfolding align_up
align_up_least addr size pos_size room = grind arith
