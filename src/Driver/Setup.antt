-- ===== src/Driver/Setup.antt =====
-- Loading and unloading the module: test_mck_setup, test_mck_cleanup and the procfs files of
-- test_drv/test_mck_drv.c. Messages are left out.
pub mod Failure
pub mod Release
use mckernel_ostest_arm.Base.{
  ℕ, zero, suc, ◌+◌, ◌-◌, ◌*◌, ◌%◌, ◌^◌, List, [], ◌∷◌, ◌++◌, Bool, true, false, ltb, length, take,
  drop, replicate, if◌then◌else◌,
}
use mckernel_ostest_arm.Base.Int.{ℤ, pos, is_neg, is_zero}
use mckernel_ostest_arm.Base.Trace.{Env, Proc, pure, call, ◌>>=◌, ◌>>◌}
use mckernel_ostest_arm.Driver.Calls.{
  Suite, mmap_dev, mmap_dev2, writecombine, ProcFile, devno, tp_names, DevT, Call,
  alloc_chrdev_region, unregister_chrdev_region, class_create, class_destroy, cdev_init, cdev_add,
  cdev_del, device_create, device_destroy, proc_mkdir, proc_create_data, remove_proc_entry,
  remove_proc_dir, Reply, Dev, enomem,
}
use mckernel_ostest_arm.Driver.Suites.{init, fin}

-- The enumeration of test_suite.list ends with this count.
abbrev pub nr_devs : ℕ
nr_devs = 3

-- An entry of `proc_ents`.
pub record ProcEnt : Type 0 where
  pub fname : ProcFile
  pub pent : ℤ

-- The static variables of test_mck_drv.c; `majmin_pos` is the local `majmin`, as an offset.
pub record Driver : Type 0 where
  pub major : ℕ
  pub devlist : List Dev
  pub majmin : List ℕ
  pub majmin_pos : ℕ
  pub procdir : ℤ
  pub proc_ents : List ProcEnt

-- An unused entry of `test_mck_devlist`.
abbrev pub fresh : Suite → Dev
fresh ts_name = record {
  ts_name = ts_name;
  private_data = pos 0;
  buffer = λ _. 0;
  devno = (0, 0);
  class = pos 0;
}

-- The module's variables before it is loaded.
abbrev pub unloaded : Driver
unloaded = record {
  major = 0;
  devlist = fresh mmap_dev ∷ fresh mmap_dev2 ∷ fresh writecombine ∷ [];
  majmin = replicate (nr_devs * 8 + 1) 0;
  majmin_pos = 0;
  procdir = pos 0;
  proc_ents =
      record { fname = devno; pent = pos 0 } ∷ record { fname = tp_names; pent = pos 0 } ∷ [];
}

-- snprintf at an offset: of `text` all that fits below `size`, and a zero.
abbrev pub print_at : (start size : ℕ) → (text buf : List ℕ) → List ℕ
print_at start zero text buf = buf
print_at start (suc size) text buf =
    let written = take size text ++ 0 ∷ [] in
    take start buf ++ (written ++ drop (start + length written) buf)

module _ (env : Env Call Reply) where
  -- One round of the loop of test_mck_cleanup_procfs.
  unfoldable pub remove_ent : ℤ → ProcEnt → Proc Call ProcEnt
  remove_ent procdir p =
      if is_zero p.pent
      then pure p
      else call env (remove_proc_entry p.fname procdir) >> pure (record p { pent = pos 0 })

  unfoldable pub remove_ents : ℤ → List ProcEnt → Proc Call (List ProcEnt)
  unfolding remove_ent
  remove_ents procdir [] = pure []
  remove_ents procdir (p ∷ ents) = do
    p' ← remove_ent procdir p
    ents' ← remove_ents procdir ents
    pure (p' ∷ ents')

  unfoldable pub cleanup_procfs : Driver → Proc Call Driver
  unfolding remove_ents
  cleanup_procfs s = do
    ents ← remove_ents s.procdir s.proc_ents
    call env remove_proc_dir
    pure (record s { proc_ents = ents; procdir = pos 0 })

  -- The loop of test_mck_init_procfs: the entries, and whether all were created.
  unfoldable pub create_ents : ℤ → List ProcEnt → Proc Call (List ProcEnt × Bool)
  create_ents procdir [] = pure ([], true)
  create_ents procdir (p ∷ ents) = do
    pent ← call env (proc_create_data p.fname procdir)
    let p' = record p { pent = pent.ret }
    let rest = create_ents procdir ents
    if is_zero pent.ret then pure (p' ∷ ents, false) else (rest >>= λ r. pure (p' ∷ r.0, r.1))

  unfoldable pub init_procfs : Driver → Proc Call (Driver × ℤ)
  unfolding create_ents
  init_procfs s = do
    procdir ← call env proc_mkdir
    let s' = record s { procdir = procdir.ret }
    if is_zero procdir.ret then pure (s', enomem) else do
      (ents, created) ← create_ents procdir.ret s.proc_ents
      pure (record s' { proc_ents = ents }, (if created then pos 0 else enomem))

  -- The loop of test_mck_cleanup.
  unfoldable pub delete_devs : List Dev → Proc Call (List Dev)
  delete_devs [] = pure []
  delete_devs (dev ∷ devs) = do
    dev' ← fin env dev
    call env (cdev_del dev.ts_name)
    call env (device_destroy dev.class dev.devno)
    call env (class_destroy dev.class)
    devs' ← delete_devs devs
    pure (dev' ∷ devs')

  unfoldable pub cleanup : Driver → Proc Call Driver
  unfolding cleanup_procfs delete_devs
  cleanup s = do
    s' ← cleanup_procfs s
    devs ← delete_devs s'.devlist
    call env (unregister_chrdev_region (s'.major, 0) nr_devs)
    pure (record s' { devlist = devs })

-- What one round of the loop of test_mck_setup leaves: the device, the text of the device numbers
-- with its end, `res`, and whether the loop goes on.
pub record Round : Type 0 where
  pub dev : Dev
  pub majmin : List ℕ
  pub majmin_pos : ℕ
  pub res : ℤ
  pub going : Bool

-- `sizeof(test_mck_majmin) - (majmin - test_mck_majmin) - 1`
abbrev pub majmin_room : ℕ → ℕ
majmin_room majmin_pos = (nr_devs * 8 + 2 ^ 64 - majmin_pos) % 2 ^ 64

-- `format` is what snprintf prints for "%3d:%-3d ", which it never refuses.
module _ (env : Env Call Reply) (page_size : ℕ) (format : ℕ → ℕ → List ℕ) where
  unfoldable pub create_dev : (major i : ℕ) → Round → Proc Call Round
  create_dev major i r = do
    let dev = r.dev
    class ← call env (class_create dev.ts_name)
    if is_neg class.ret
        then pure (record r { dev = record dev { class = pos 0 }; going = false })
        else do
          call env (cdev_init dev.ts_name)
          let dev' = record dev { class = class.ret; devno = (major, i) }
          added ← call env (cdev_add dev.ts_name (major, i))
          if is_zero added.ret
              then (do
                call env (device_create class.ret (major, i))
                (dev'', res) ← init env page_size dev'
                let text = format major i
                pure (record {
                  dev = dev'';
                  majmin = print_at r.majmin_pos (majmin_room r.majmin_pos) text r.majmin;
                  majmin_pos = r.majmin_pos + length text;
                  res = res;
                  going = is_zero res;
                }))
              else pure (record r { dev = dev'; res = added.ret; going = false })

  -- The loop: the devices, and what its last round left besides.
  unfoldable pub create_devs :
      (major i : ℕ)
      → List Dev
      → (majmin : List ℕ) → (majmin_pos : ℕ) → (res : ℤ)
      → Proc Call (List Dev × List ℕ × ℕ × ℤ × Bool)
  unfolding create_dev
  create_devs major i [] majmin majmin_pos res = pure ([], majmin, majmin_pos, res, true)
  create_devs major i (dev ∷ devs) majmin majmin_pos res = do
    r ←
        create_dev major i
          (record { dev = dev; majmin = majmin; majmin_pos = majmin_pos; res = res; going = true })
    let rest = create_devs major (i + 1) devs r.majmin r.majmin_pos r.res
    if r.going
        then (do
          (devs', majmin', majmin_pos', res', going') ← rest
          pure (r.dev ∷ devs', majmin', majmin_pos', res', going'))
        else pure (r.dev ∷ devs, r.majmin, r.majmin_pos, r.res, false)

  -- The label `fail`.
  unfoldable pub fail : Driver → ℤ → Proc Call (Driver × ℤ)
  fail s res = do s' ← cleanup env s; pure (s', res)

  unfoldable pub setup : Driver → Proc Call (Driver × ℤ)
  setup s = do
    region ← call env (alloc_chrdev_region nr_devs)
    if is_neg region.ret then fail s region.ret else do
      (devs, majmin, majmin_pos, res, going) ←
          create_devs region.major 0 s.devlist s.majmin 0 region.ret
      let s' = record s {
        major = region.major;
        devlist = devs;
        majmin = majmin;
        majmin_pos = majmin_pos;
      }
      if going
          then (do
            (s'', made) ← init_procfs env s'
            if is_zero made then pure (s'', pos 0) else fail s'' made)
          else fail s' res
