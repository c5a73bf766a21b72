-- ===== src/Driver/Tests.antt =====
-- Loading the module on a kernel that grants everything, and on one without device classes.
use mckernel_ostest_arm.Base.{
  ℕ, ◌+◌, ◌*◌, ◌%◌, ◌<◌, ◌≤◌, min, List, [], ◌∷◌, ◌++◌, ◌≡◌, refl, ◌⊎◌, inl, inr, true, false,
  arith, drop,
}
use mckernel_ostest_arm.Base.Int.{ℤ, pos, negsuc, is_zero}
use mckernel_ostest_arm.Base.Trace.{Env}
use mckernel_ostest_arm.Driver.Calls.{
  mmap_dev2, Call, alloc_chrdev_region, class_create, cdev_add, vmalloc_user, proc_mkdir,
  proc_create_data, Reply, Dev, enomem, efault,
}
use mckernel_ostest_arm.Driver.Suites.{
  buf_size, buffer_reset, vma_fault, init, mmap_dev2_init, writecombine_init,
}
use mckernel_ostest_arm.Driver.Suites.Reset.{vma_fault_page}
use mckernel_ostest_arm.Driver.Setup.{
  fresh, unloaded, init_procfs, create_ents, cleanup, create_dev, create_devs, setup,
}
use mckernel_ostest_arm.Driver.Setup.Failure.{torn_down, setup_class_failed}
use mckernel_ostest_arm.Driver.Setup.Release.{buffer, gained, refused, lost, cleanup-setup_balanced}
use mckernel_ostest_arm.Driver.ProcRead.{string_read}
use mckernel_ostest_arm.Driver.ProcRead.Sequence.{read_seq, read_seq_lem}

abbrev reply : ℤ → Reply
reply ret = record { ret = ret; major = 240 }

-- class_create answers `class`, and every other call succeeds.
abbrev kernel : (class : ℤ) → Env Call Reply
kernel class h (class_create ts_name) = reply class
kernel class h (alloc_chrdev_region n) = reply (pos 0)
kernel class h (cdev_add ts_name devno) = reply (pos 0)
kernel class h (vmalloc_user size) = reply (pos 4096)
kernel class h proc_mkdir = reply (pos 32)
kernel class h (proc_create_data fname procdir) = reply (pos 48)
kernel class h c = reply (pos 0)

-- Eight characters for each device.
abbrev print : ℕ → ℕ → List ℕ
print major minor = b'2' ∷ b'4' ∷ b'0' ∷ b':' ∷ (b'0' + minor) ∷ b' ' ∷ b' ' ∷ b' ' ∷ []

abbrev granted : Env Call Reply
granted = kernel (pos 16)

cleanup-setup_balanced_example :
    let ((s', ret), h') = setup granted 4096 print unloaded [] in
    let h'' = (cleanup granted s' h').1 in
    gained granted buffer h'' + refused granted buffer h'' + 0 ≡ lost buffer h'' + 0
unfolding setup create_devs create_dev init mmap_dev2_init writecombine_init init_procfs create_ents
cleanup-setup_balanced_example =
    cleanup-setup_balanced granted 4096 print buffer unloaded [] (refl, (refl, (refl, tt))) refl
      refl

setup_class_failed_example :
    let ((s', ret), h') = setup (kernel (negsuc 11)) 4096 print unloaded [] in
    (ret ≡ pos 0) × (torn_down h' ≡ true)
unfolding create_devs create_dev
setup_class_failed_example =
    setup_class_failed (kernel (negsuc 11)) 4096 print unloaded [] refl refl

-- A device with a buffer.
abbrev ready : Dev
ready = record (fresh mmap_dev2) { private_data = pos 4096 }

abbrev memory : ℕ → ℕ
memory a = 255

vma_fault_page_example :
    ((is_zero ready.private_data ≡ true) × (vma_fault 4096 ready 3 ≡ inr enomem))
    ⊎ ((is_zero ready.private_data ≡ false)
        × (buf_size 4096 ≤ 3 * 4096)
        × (vma_fault 4096 ready 3 ≡ inr efault))
    ⊎ ((is_zero ready.private_data ≡ false)
        × (vma_fault 4096 ready 3 ≡ inl (3 * 4096))
        × (3 * 4096 + 4096 ≤ buf_size 4096)
        × ((i : ℕ) → i < 4096 → buffer_reset 4096 memory (3 * 4096 + i) ≡ (3 + 1) % 256))
vma_fault_page_example = vma_fault_page 4096 ready 3 memory (omega arith)

abbrev text : List ℕ
text = b'2' ∷ b'4' ∷ b'0' ∷ b':' ∷ b'0' ∷ []

two_reads : read_seq text (2 ∷ 9 ∷ []) 0 ≡ (text, 5)
unfolding read_seq string_read
two_reads = refl

read_seq_lem_example :
    let (bytes, ppos') = read_seq text (2 ∷ 9 ∷ []) 1 in
    (bytes ++ drop ppos' text ≡ drop 1 text) × (ppos' ≡ min (1 + 11) 5)
read_seq_lem_example =
    read_seq_lem text (2 ∷ 9 ∷ []) 1 (omega arith) (omega arith, (omega arith, tt)) (omega arith)
