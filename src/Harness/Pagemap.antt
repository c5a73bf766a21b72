-- ===== src/Harness/Pagemap.antt =====
-- __get_memory_info of test_mck/src/test_mck.c: the entry of /proc/<pid>/pagemap for an address.
-- The page size is the default one of arch/arm64/include/arch_test_mck.h, 2^12. Messages are left out.
pub mod Decode
use mckernel_ostest_arm.Base.{
  ℕ, ◌+◌, ◌*◌, ◌/◌, ◌%◌, ◌^◌, Bool, true, false, List, Option, none, some, ◌==◌, not, if◌then◌else◌,
}
use mckernel_ostest_arm.Base.Int.{ℤ, pos, negsuc, is_minus_one}
use mckernel_ostest_arm.Base.Trace.{Env, Proc, pure, call, ◌>>=◌, ◌>>◌}

pub record MemoryInfo : Type 0 where
  pub phys : ℕ
  pub pgsize : ℕ
  pub present : ℕ
  pub swap : ℕ

abbrev pub zeroed : MemoryInfo
zeroed = record { phys = 0; pgsize = 0; present = 0; swap = 0 }

-- `open` of the path that the caller made, `lseek`, `read` of eight bytes, and `close`.
pub data Call : Type 0 where
  open_pagemap : Call
  lseek : ℤ → ℕ → Call
  read : ℤ → Call
  close : ℤ → Call

-- What a call returns, and what `read` leaves in `pagemap`, which is 0 before.
pub record Reply : Type 0 where
  pub ret : ℤ
  pub pagemap : ℕ

-- -EINVAL, -EIO
abbrev pub einval : ℤ
einval = negsuc 21

abbrev pub eio : ℤ
eio = negsuc 4

abbrev pub page_shift : ℕ
page_shift = 12

abbrev pub page_size : ℕ
page_size = 2 ^ page_shift

-- The offset of the entry: an entry has eight bytes.
abbrev pub entry_offset : ℕ → ℕ
entry_offset virt = (virt / page_size * page_size) / page_size * 8

-- The masks PM_PFRAME_MASK (bits 0 to 54), PM_PSHIFT_MASK (55 to 60), PM_PRESENT (63) and PM_SWAP
-- (62), as quotients and remainders. The shifted frame number has no bit below the page shift, so
-- `|` is a sum.
unfoldable pub decode : (pagemap virt : ℕ) → MemoryInfo
decode pagemap virt = record {
  phys = (pagemap % 2 ^ 55 * 2 ^ page_shift) % 2 ^ 64 + virt % page_size;
  pgsize = 2 ^ (pagemap / 2 ^ 55 % 2 ^ 6);
  present = pagemap / 2 ^ 63 % 2;
  swap = pagemap / 2 ^ 62 % 2;
}

-- `none` is a NULL `info`. The result is the return value and `*info`.
unfoldable pub get_memory_info :
    Env Call Reply → (virt : ℕ) → Option MemoryInfo → Proc Call (ℤ × Option MemoryInfo)
get_memory_info env virt none = pure (einval, none)
get_memory_info env virt (some info) = do
  fd ← call env open_pagemap
  if is_minus_one fd.ret then pure (eio, some zeroed) else do
    sought ← call env (lseek fd.ret (entry_offset virt))
    if is_minus_one sought.ret then (call env (close fd.ret) >> pure (eio, some zeroed)) else do
      got ← call env (read fd.ret)
      call env (close fd.ret)
      pure (
          if is_minus_one got.ret
          then (eio, some zeroed)
          else (pos 0, some (decode got.pagemap virt)))
