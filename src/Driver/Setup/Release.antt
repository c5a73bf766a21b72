-- ===== src/Driver/Setup/Release.antt =====
-- What the module holds after loading, and what unloading gives back.
use mckernel_ostest_arm.Base.{
  ℕ, ◌+◌, List, [], ◌∷◌, ◌≡◌, Bool, true, false, not, arith, Bool-cases, inl, inr, refl,
}
use mckernel_ostest_arm.Base.Int.{ℤ, pos, is_neg, is_zero}
use mckernel_ostest_arm.Base.Trace.{total_gain, total_loss, Env}
use mckernel_ostest_arm.Driver.Calls.{
  mmap_dev, Call, alloc_chrdev_region, unregister_chrdev_region, class_create, class_destroy,
  cdev_add, cdev_del, device_create, device_destroy, vmalloc_user, vfree, proc_mkdir,
  proc_create_data, remove_proc_entry, remove_proc_dir, Reply, Dev,
}
use mckernel_ostest_arm.Driver.Suites.{init, fin}
use mckernel_ostest_arm.Driver.Setup.{
  nr_devs, ProcEnt, Driver, Round, create_dev, create_devs, create_ents, init_procfs, remove_ent,
  remove_ents, cleanup_procfs, delete_devs, cleanup, fail, setup,
}
use mckernel_ostest_arm.Driver.Setup.Failure.{torn_down, cleanup-torn_down}

-- The kinds of kernel object that the module holds.
pub data Kind : Type 0 where
  region class cdev device buffer proc_file proc_dir : Kind

abbrev unless : Bool → ℕ
unless true = 0
unless false = 1

-- The objects of a kind that a call gives to the module, by the kernel's answer.
abbrev gain : Kind → Call → Reply → ℕ
gain region (alloc_chrdev_region n) r = unless (is_neg r.ret)
gain class (class_create ts_name) r = unless (is_neg r.ret)
gain cdev (cdev_add ts_name from) r = unless (not (is_zero r.ret))
gain device (device_create cls from) r = unless (is_neg r.ret)
gain buffer (vmalloc_user n) r = unless (is_zero r.ret)
gain proc_file (proc_create_data fname dir) r = unless (is_zero r.ret)
gain proc_dir proc_mkdir r = unless (is_zero r.ret)
gain k c r = 0

-- A device node that device_create has refused, which loading does not notice.
abbrev refusal : Kind → Call → Reply → ℕ
refusal device (device_create cls from) r = unless (not (is_neg r.ret))
refusal k c r = 0

-- What loading takes itself to hold.
abbrev belief : Kind → Call → Reply → ℕ
belief k c r = gain k c r + refusal k c r

-- The objects of a kind that a call gives back.
abbrev loss : Kind → Call → ℕ
loss region (unregister_chrdev_region from n) = 1
loss class (class_destroy cls) = 1
loss cdev (cdev_del ts_name) = 1
loss device (device_destroy cls from) = 1
loss buffer (vfree p) = 1
loss proc_file (remove_proc_entry fname dir) = 1
loss proc_dir remove_proc_dir = 1
loss k c = 0

abbrev pub gained : Env Call Reply → Kind → List Call → ℕ
gained env k h = total_gain (gain k) env h

-- The device nodes that device_create has refused.
abbrev pub refused : Env Call Reply → Kind → List Call → ℕ
refused env k h = total_gain (refusal k) env h

abbrev believed : Env Call Reply → Kind → List Call → ℕ
believed env k h = total_gain (belief k) env h

believed_lem :
    (env : Env Call Reply) (k : Kind) (h : List Call)
    → believed env k h ≡ gained env k h + refused env k h
believed_lem env k [] = refl
believed_lem env k (c ∷ h) = let rest = believed_lem env k h in omega arith

abbrev pub lost : Kind → List Call → ℕ
lost k h = total_loss (loss k) h

-- What unloading gives back for a device, and for a procfs file.
abbrev of_dev : Kind → Dev → ℕ
of_dev class dev = 1
of_dev cdev dev = 1
of_dev device dev = 1
of_dev buffer dev = elim dev.ts_name [ mmap_dev ↦ 0 | _ ↦ unless (is_zero dev.private_data) ]
of_dev k dev = 0

abbrev of_fin : Kind → Dev → ℕ
of_fin buffer dev = of_dev buffer dev
of_fin k dev = 0

abbrev of_devs : Kind → List Dev → ℕ
of_devs k [] = 0
of_devs k (dev ∷ devs) = of_dev k dev + of_devs k devs

abbrev of_ent : Kind → ProcEnt → ℕ
of_ent proc_file p = unless (is_zero p.pent)
of_ent k p = 0

abbrev of_ents : Kind → List ProcEnt → ℕ
of_ents k [] = 0
of_ents k (p ∷ ents) = of_ent k p + of_ents k ents

-- What the module holds once, whatever its devices and files.
abbrev of_dir : Kind → ℕ
of_dir proc_dir = 1
of_dir k = 0

abbrev of_region : Kind → ℕ
of_region region = 1
of_region k = 0

-- No device has a buffer.
abbrev pub Bare : List Dev → Type 0
Bare [] = Unit
Bare (dev ∷ devs) = (dev.private_data ≡ pos 0) × Bare devs

module _ (env : Env Call Reply) (k : Kind) where
  fin_lem :
      (dev : Dev) (h : List Call)
      → let (dev', h') = fin env dev h in
        (lost k h' ≡ lost k h + of_fin k dev) × (believed env k h' ≡ believed env k h)
  unfolding fin
  fin_lem dev h = ground arith

  delete_devs_lem :
      (devs : List Dev) (h : List Call)
      → let (devs', h') = delete_devs env devs h in
        (lost k h' ≡ lost k h + of_devs k devs) × (believed env k h' ≡ believed env k h)
  unfolding delete_devs
  delete_devs_lem [] h = omega arith
  delete_devs_lem (dev ∷ devs) h =
      let (dev', h') = fin env dev h in
      let h'' =
        class_destroy dev.class ∷ device_destroy dev.class dev.devno ∷ cdev_del dev.ts_name ∷ h' in
      ground (arith, fin_lem dev h, delete_devs_lem devs h'')

  remove_ents_lem :
      (dir : ℤ) (ents : List ProcEnt) (h : List Call)
      → let (ents', h') = remove_ents env dir ents h in
        (lost k h' ≡ lost k h + of_ents k ents) × (believed env k h' ≡ believed env k h)
  unfolding remove_ents remove_ent
  remove_ents_lem dir [] h = omega arith
  remove_ents_lem dir (p ∷ ents) h =
      let (p', h') = remove_ent env dir p h in ground (arith, remove_ents_lem dir ents h')

  create_ents_lem :
      (dir : ℤ) (ents : List ProcEnt) (h : List Call)
      → let ((ents', made), h') = create_ents env dir ents h in
        made ≡ true
        → (believed env k h' ≡ believed env k h + of_ents k ents') × (lost k h' ≡ lost k h)
  unfolding create_ents
  create_ents_lem dir [] h = λ _. omega arith
  create_ents_lem dir (p ∷ ents) h =
      ground (arith, create_ents_lem dir ents (proc_create_data p.fname dir ∷ h))

  cleanup_lem :
      (s : Driver) (h : List Call)
      → let (s', h') = cleanup env s h in
        (lost k h'
          ≡ lost k h + of_devs k s.devlist + of_ents k s.proc_ents + of_dir k + of_region k)
        × (believed env k h' ≡ believed env k h)
  unfolding cleanup cleanup_procfs
  cleanup_lem s h =
      let h1 = (remove_ents env s.procdir s.proc_ents h).1 in
      ground (
        arith,
        remove_ents_lem s.procdir s.proc_ents h,
        delete_devs_lem s.devlist (remove_proc_dir ∷ h1),
      )

  init_procfs_lem :
      (s : Driver) (h : List Call)
      → let ((s', ret), h') = init_procfs env s h in
        is_zero ret ≡ true
        → (believed env k h' ≡ believed env k h + of_ents k s'.proc_ents + of_dir k)
          × (lost k h' ≡ lost k h)
          × (s'.devlist ≡ s.devlist)
  unfolding init_procfs
  init_procfs_lem s h =
      ground (arith, create_ents_lem (env h proc_mkdir).ret s.proc_ents (proc_mkdir ∷ h))

module _ (env : Env Call Reply) (page_size : ℕ) (format : ℕ → ℕ → List ℕ) (k : Kind) where
  create_dev_lem :
      (major i : ℕ) (r : Round) (h : List Call)
      → r.dev.private_data ≡ pos 0
      → let (r', h') = create_dev env page_size format major i r h in
        r'.going ≡ true
        → (believed env k h' ≡ believed env k h + of_dev k r'.dev) × (lost k h' ≡ lost k h)
  unfolding create_dev init
  create_dev_lem major i r h e = ground arith

  create_devs_lem :
      (major i : ℕ) (devs : List Dev) (majmin : List ℕ) (majmin_pos : ℕ) (res : ℤ) (h : List Call)
      → Bare devs
      → let (s, h') = create_devs env page_size format major i devs majmin majmin_pos res h in
        s.4 ≡ true → (believed env k h' ≡ believed env k h + of_devs k s.0) × (lost k h' ≡ lost k h)
  unfolding create_devs
  create_devs_lem major i [] majmin majmin_pos res h bare = λ _. omega arith
  create_devs_lem major i (dev ∷ devs) majmin majmin_pos res h bare =
      let before : Round = record {
        dev = dev;
        majmin = majmin;
        majmin_pos = majmin_pos;
        res = res;
        going = true;
      } in
      let (r, h') = create_dev env page_size format major i before h in
      ground (
        arith,
        create_dev_lem major i before h bare.0,
        create_devs_lem major (i + 1) devs r.majmin r.majmin_pos r.res h' bare.1,
      )

  -- Loading that returns 0 and does not end by giving the device numbers back holds what unloading
  -- will give back.
  setup_lem :
      (s : Driver) (h : List Call)
      → Bare s.devlist
      → let ((s', ret), h') = setup env page_size format s h in
        ret ≡ pos 0
        → torn_down h' ≡ false
        → (believed env k h'
            ≡ believed env k h
              + of_devs k s'.devlist
              + of_ents k s'.proc_ents
              + of_dir k
              + of_region k)
          × (lost k h' ≡ lost k h)
  unfolding setup fail
  setup_lem s h bare =
      let region_call = alloc_chrdev_region nr_devs in
      let r = env h region_call in
      let h0 = region_call ∷ h in
      let (t, h1) = create_devs env page_size format r.major 0 s.devlist s.majmin 0 r.ret h0 in
      let s1 = record s { major = r.major; devlist = t.0; majmin = t.1; majmin_pos = t.2 } in
      let ((s2, made), h2) = init_procfs env s1 h1 in
      let devs = create_devs_lem r.major 0 s.devlist s.majmin 0 r.ret h0 bare in
      let files = init_procfs_lem env k s1 h1 in
      elim (Bool-cases (is_neg r.ret)) [
        | inl refused ↦ rw refused (λ _ down. cc (cleanup-torn_down env page_size format s h0))
        | inr given ↦ elim (Bool-cases t.4) [
          | inr stopped ↦
              rw (given, stopped) (λ _ down. cc (cleanup-torn_down env page_size format s1 h1))
          | inl going ↦ elim (Bool-cases (is_zero made)) [
            | inr unmade ↦
                rw (given, going, unmade)
                  (λ _ down. cc (cleanup-torn_down env page_size format s2 h2))
            | inl ready ↦ rw (given, going, ready) (λ _ _. ground (arith, devs going, files ready))
          ]
        ]
      ]

  -- When no device has a buffer before, and loading the module returns 0 and does not end by giving
  -- the device numbers back, then of every kind of kernel object (device numbers, class, character
  -- device, device node, buffer, procfs file and directory), by the kernel's answers, unloading after
  -- it gives back as many as both took, and besides as many device nodes as device_create has refused.
  pub cleanup-setup_balanced :
      (s : Driver) (h : List Call)
      → Bare s.devlist
      → (setup env page_size format s h).0.1 ≡ pos 0
      → torn_down (setup env page_size format s h).1 ≡ false
      → let ((s', ret), h') = setup env page_size format s h in
        let h'' = (cleanup env s' h').1 in
        gained env k h'' + refused env k h'' + lost k h
        ≡ lost k h'' + (gained env k h + refused env k h)
  cleanup-setup_balanced s h bare zero_ret up =
      let ((s', ret), h') = setup env page_size format s h in
      let h'' = (cleanup env s' h').1 in
      omega (
        arith,
        setup_lem s h bare zero_ret up,
        cleanup_lem env k s' h',
        believed_lem env k h,
        believed_lem env k h'',
      )
