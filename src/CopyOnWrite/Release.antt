-- ===== src/CopyOnWrite/Release.antt =====
-- What a run of the program leaves open, and what it writes.
use mckernel_ostest_arm.Base.{
  ℕ, ◌+◌, ◌≤◌, ◌≡◌, ◌⊎◌, inl, inr, refl, List, ◌∷◌, Bool, true, false, arith, length, leb,
  if◌then◌else◌, Bool-cases,
}
use mckernel_ostest_arm.Base.Int.{ℤ, pos, negsuc, is_minus_one}
use mckernel_ostest_arm.Base.Trace.{total_gain, total_loss, Env}
use mckernel_ostest_arm.CopyOnWrite.{
  Args, Call, open_file, stat, mmap, strcpy, msync, munmap, close_file, Reply, prot_of, flags_of,
  finish, synchronize, write_to_file,
}

-- Of descriptors and mappings: those that a history gave, and those it gave back.
pub data Kind : Type 0 where
  descriptor mapping : Kind

abbrev pub got : Kind → Call → Reply → ℕ
got descriptor (open_file path writable) r = if is_minus_one r.ret then 0 else 1
got mapping (mmap len prot flags fd) r = if is_minus_one r.ret then 0 else 1
got k c r = 0

abbrev pub gave : Kind → Call → ℕ
gave descriptor (close_file fd) = 1
gave mapping (munmap addr len) = 1
gave k c = 0

abbrev pub taken : Env Call Reply → Kind → List Call → ℕ
taken env k h = total_gain (got k) env h

abbrev pub returned : Kind → List Call → ℕ
returned k h = total_loss (gave k) h

-- The calls on a mapping between its creation and its end: the copy and, if asked for, the msync.
abbrev pub used : (sync : Bool) → (addr : ℤ) → (size : ℕ) → List ℕ → List Call → List Call
used sync addr size string h =
    if sync then msync addr size ∷ strcpy addr string ∷ h else strcpy addr string ∷ h

-- write_to_file returns -1 or 0. If it returns 0, then it copied the string with its final zero to a
-- mapping of the file that is large enough, followed by an msync that did not fail if `sync` is set,
-- unmapped it and closed the file.
pub write_to_file_lem :
    (env : Env Call Reply) (a : Args) (string : List ℕ) (h : List Call)
    → let (ret, h') = write_to_file env a string h in
      let fd = (env h (open_file a.path true)).ret in
      let h1 = open_file a.path true ∷ h in
      let size = (env h1 (stat a.path)).st_size in
      let h2 = mmap size (prot_of a) (flags_of a) fd ∷ stat a.path ∷ h1 in
      let addr = (env (stat a.path ∷ h1) (mmap size (prot_of a) (flags_of a) fd)).ret in
      (ret ≡ negsuc 0)
      ⊎ ((ret ≡ pos 0)
          × (is_minus_one addr ≡ false)
          × (length string + 1 ≤ size)
          × ((a.sync ≡ false)
              ⊎ (is_minus_one (env (strcpy addr string ∷ h2) (msync addr size)).ret ≡ false))
          × (h' ≡ close_file fd ∷ munmap addr size ∷ used a.sync addr size string h2))
unfolding write_to_file finish synchronize
write_to_file_lem env a string h =
    let fd = (env h (open_file a.path true)).ret in
    let h1 = open_file a.path true ∷ h in
    let sbuf = env h1 (stat a.path) in
    let map_call = mmap sbuf.st_size (prot_of a) (flags_of a) fd in
    let h2 = map_call ∷ stat a.path ∷ h1 in
    let addr = (env (stat a.path ∷ h1) map_call).ret in
    let synced = (env (strcpy addr string ∷ h2) (msync addr sbuf.st_size)).ret in
    elim (Bool-cases (is_minus_one fd)) [
      | inl e ↦ rw e (inl refl)
      | inr opened ↦ elim (Bool-cases (is_minus_one sbuf.ret)) [
        | inl e ↦ rw (opened, e) (inl refl)
        | inr known ↦ elim (Bool-cases (leb sbuf.st_size (length string))) [
          | inl e ↦ rw (opened, known, e) (inl refl)
          | inr fits ↦ elim (Bool-cases (is_minus_one addr)) [
            | inl e ↦ rw (opened, known, fits, e) (inl refl)
            | inr mapped ↦
                rw (opened, known, fits, mapped)
                  (elim (Bool-cases a.sync) [
                    | inr plain ↦ rw plain (inr (refl, refl, ground arith, inl refl, refl))
                    | inl sync ↦ elim (Bool-cases (is_minus_one synced)) [
                      | inl e ↦ rw (sync, e) (inl refl)
                      | inr done ↦ rw (sync, done) (inr (refl, refl, ground arith, inr refl, refl))
                    ]
                  ])
          ]
        ]
      ]
    ]
