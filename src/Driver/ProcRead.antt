-- ===== src/Driver/ProcRead.antt =====
-- test_mck_procfs_string_read of test_drv/test_mck_drv.c: one read of a string from a position.
pub mod Sequence
use mckernel_ostest_arm.Base.{
  ℕ, ◌+◌, ◌-◌, ◌%◌, ◌^◌, List, [], Bool, ltb, length, take, drop, if◌then◌else◌,
}
use mckernel_ostest_arm.Base.Int.{ℤ, pos}
use mckernel_ostest_arm.Driver.Calls.{efault}

-- The result, the new `*ppos`, and the bytes that copy_to_user was given and copied.
pub record ReadResult : Type 0 where
  pub ret : ℤ
  pub ppos : ℕ
  pub bytes : List ℕ

-- Positions are not negative. The sum is an unsigned long, and wraps.
unfoldable pub string_read :
    (copy_fails : Bool) → (string : List ℕ) → (nbytes ppos : ℕ) → ReadResult
string_read copy_fails string nbytes ppos =
    let len = length string in
    let count = if ltb len ((ppos + nbytes) % 2 ^ 64) then len - ppos else nbytes in
    if ltb len ppos
    then record { ret = pos 0; ppos = ppos; bytes = [] }
    else if copy_fails
    then record { ret = efault; ppos = ppos; bytes = [] }
    else record { ret = pos count; ppos = ppos + count; bytes = take count (drop ppos string) }
