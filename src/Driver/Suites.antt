-- ===== src/Driver/Suites.antt =====
-- The three devices: test_drv/test_mck_drv-mmap_dev.c, -mmap_dev2.c and -writecombine.c.
pub mod Reset
use mckernel_ostest_arm.Base.{
  ℕ, zero, suc, ◌+◌, ◌-◌, ◌*◌, ◌/◌, ◌%◌, ◌^◌, Bool, true, false, ◌&&◌, ◌⊎◌, inl, inr, Option, none,
  some, ltb, leb, if◌then◌else◌,
}
use mckernel_ostest_arm.Base.Int.{ℤ, pos, is_zero}
use mckernel_ostest_arm.Base.Trace.{Env, Proc, pure, call, ◌>>=◌, ◌>>◌}
use mckernel_ostest_arm.Driver.Calls.{
  Suite, mmap_dev, mmap_dev2, writecombine, Call, vmalloc_user, vfree, Reply, Dev, enomem, efault,
}

-- memset on a buffer: the value is cut to a byte.
unfoldable pub memset : (ℕ → ℕ) → (start val len : ℕ) → ℕ → ℕ
memset mem start val len a = if leb start a && ltb a (start + len) then val % 256 else mem a

-- The page size is the kernel's; a page table entry has 8 bytes.
abbrev pub block_size : ℕ → ℕ
block_size page_size = page_size / 8 * page_size

abbrev pub buf_size : ℕ → ℕ
buf_size page_size = block_size page_size + page_size

-- The loop of test_mck_mmap_dev2_buffer_reset, for `fuel` rounds at most.
unfoldable pub reset_loop : (page_size fuel off val : ℕ) → (ℕ → ℕ) → ℕ → ℕ
unfolding memset
reset_loop page_size zero off val mem = mem
reset_loop page_size (suc fuel) off val mem =
    let len =
      if ltb (off + page_size) (buf_size page_size) then page_size else buf_size page_size - off in
    let rest = reset_loop page_size fuel (off + page_size) (val + 1) (memset mem off val len) in
    if ltb off (buf_size page_size) then rest else mem

-- Every round passes a page, and the buffer has `page_size / 8 + 1` pages.
unfoldable pub buffer_reset : ℕ → (ℕ → ℕ) → ℕ → ℕ
unfolding reset_loop
buffer_reset page_size mem = reset_loop page_size (page_size / 8 + 2) 0 1 mem

-- `pgoff << PAGE_SHIFT` in an unsigned long
abbrev pub page_start : (page_size pgoff : ℕ) → ℕ
page_start page_size pgoff = (pgoff * page_size) % 2 ^ 64

-- test_mck_mmap_dev2_vma_fault: the offset into the buffer of the page that is mapped, or an error.
unfoldable pub vma_fault : (page_size : ℕ) → Dev → (pgoff : ℕ) → ℕ ⊎ ℤ
vma_fault page_size dev pgoff =
    if is_zero dev.private_data
    then inr enomem
    else if leb (buf_size page_size) (page_start page_size pgoff)
    then inr efault
    else inl (page_start page_size pgoff)

-- test_mck_writecombine_vma_fault has no check of the page offset.
unfoldable pub writecombine_vma_fault : (page_size : ℕ) → Dev → (pgoff : ℕ) → ℕ ⊎ ℤ
writecombine_vma_fault page_size dev pgoff =
    if is_zero dev.private_data then inr enomem else inl (page_start page_size pgoff)

-- test_mck_mmap_dev2_ioctl: one command resets the buffer, any other does nothing.
unfoldable pub ioctl : (page_size : ℕ) → Bool → Dev → Dev
unfolding buffer_reset
ioctl page_size is_buf_reset dev =
    if is_buf_reset then record dev { buffer = buffer_reset page_size dev.buffer } else dev

module _ (env : Env Call Reply) (page_size : ℕ) where
  unfoldable pub mmap_dev2_init : Dev → Proc Call (Dev × ℤ)
  unfolding buffer_reset
  mmap_dev2_init dev = do
    buf ← call env (vmalloc_user (buf_size page_size))
    let dev' = record dev { private_data = buf.ret }
    if is_zero buf.ret
        then pure (dev', enomem)
        else pure (record dev' { buffer = buffer_reset page_size dev.buffer }, pos 0)

  unfoldable pub writecombine_init : Dev → Proc Call (Dev × ℤ)
  unfolding memset
  writecombine_init dev = do
    buf ← call env (vmalloc_user page_size)
    let dev' = record dev { private_data = buf.ret }
    if is_zero buf.ret
        then pure (dev', enomem)
        else pure (record dev' { buffer = memset dev.buffer 0 0x80 page_size }, pos 0)

  -- `dev->init`
  unfoldable pub init : Dev → Proc Call (Dev × ℤ)
  unfolding mmap_dev2_init writecombine_init
  init dev = elim dev.ts_name [
    | mmap_dev ↦ pure (dev, pos 0)
    | mmap_dev2 ↦ mmap_dev2_init dev
    | writecombine ↦ writecombine_init dev
  ]

module _ (env : Env Call Reply) where
  -- test_mck_mmap_dev2_fin and test_mck_writecombine_fin
  unfoldable pub free_buffer : Dev → Proc Call Dev
  free_buffer dev =
      if is_zero dev.private_data
      then pure dev
      else call env (vfree dev.private_data) >> pure (record dev { private_data = pos 0 })

  -- `dev->fin`
  unfoldable pub fin : Dev → Proc Call Dev
  unfolding free_buffer
  fin dev = elim dev.ts_name [
    | mmap_dev ↦ pure dev
    | mmap_dev2 ↦ free_buffer dev
    | writecombine ↦ free_buffer dev
  ]
