-- ===== src/Harness/Number.antt =====
-- test_mck_strtoul of test_mck/src/test_mck.c, and the alignment macros of test_mck.h.
pub mod Laws
use mckernel_ostest_arm.Base.{
  ℕ, suc, ◌+◌, ◌-◌, ◌*◌, ◌/◌, ◌%◌, ◌^◌, Bool, true, false, ◌&&◌, ◌||◌, Option, none, some, ◌==◌,
  if◌then◌else◌,
}
use mckernel_ostest_arm.Base.Int.{ℤ, pos, negsuc}

-- What strtoll leaves: its value, whether `endptr` is `nptr`, and whether errno is ERANGE.
pub record Strtoll : Type 0 where
  pub value : ℤ
  pub no_digits : Bool
  pub erange : Bool

-- The conversion of a `long long` to `unsigned long`.
abbrev pub to_unsigned : ℤ → ℕ
to_unsigned (pos n) = n % 2 ^ 64
to_unsigned (negsuc n) = (2 ^ 64 - 1 - n % 2 ^ 64) % 2 ^ 64

-- LONG_MIN and LONG_MAX, converted to `unsigned long` for the comparison.
abbrev pub long_min : ℕ
long_min = 2 ^ 63

abbrev pub long_max : ℕ
long_max = 2 ^ 63 - 1

-- A text is `none` for NULL, and otherwise what strtoll makes of it.
unfoldable pub test_mck_strtoul : Option Strtoll → (default_value : ℕ) → ℕ
test_mck_strtoul none default_value = default_value
test_mck_strtoul (some r) default_value =
    let ret = to_unsigned r.value in
    if ret == 0 && r.no_digits
    then default_value
    else if (ret == long_min || ret == long_max) && r.erange
    then default_value
    else ret

-- `addr & ~(size - 1)` for a power of two, in which `&` clears the bits below `size`, on 64 bits.
unfoldable pub align_down : (addr size : ℕ) → ℕ
align_down addr size = addr - addr % size

unfoldable pub align_up : (addr size : ℕ) → ℕ
unfolding align_down
align_up addr size = align_down ((addr + size - 1) % 2 ^ 64) size
