-- ===== src/Harness/TempFile/Ownership.antt =====
-- Who holds the descriptor, the file and the memory of the path.
use mckernel_ostest_arm.Base.{ℕ, ◌≡◌, ◌⊎◌, List, true, false, if◌then◌else◌}
use mckernel_ostest_arm.Base.Int.{ℤ, is_minus_one, is_zero}
use mckernel_ostest_arm.Base.Trace.{total_gain, total_loss, Env}
use mckernel_ostest_arm.Harness.TempFile.{Call, asprintf, mkstemp, close, unlink, free, Reply}

-- Of descriptors, files and paths: those that a history gave, and those it gave back.
pub data Kind : Type 0 where
  descriptor file path : Kind

abbrev pub got : Kind → Call → Reply → ℕ
got descriptor (mkstemp p) r = if is_minus_one r.ret then 0 else 1
got file (mkstemp p) r = if is_minus_one r.ret then 0 else 1
got path asprintf r = if is_minus_one r.ret then 0 else 1
got k c r = 0

abbrev pub gave : Kind → Call → ℕ
gave descriptor (close fd) = 1
gave file (unlink p) = 1
gave path (free p) = 1
gave k c = 0

abbrev pub taken : Env Call Reply → Kind → List Call → ℕ
taken env k h = total_gain (got k) env h

abbrev pub returned : Kind → List Call → ℕ
returned k h = total_loss (gave k) h

-- What the caller of test_mck_create_temp_file holds by a path that is not NULL.
abbrev pub held : Kind → ℤ → ℕ
held descriptor p = 0
held file p = if is_zero p then 0 else 1
held path p = if is_zero p then 0 else 1

-- asprintf stores a pointer that is not NULL if it does not fail; if it fails, the pointer is undefined.
abbrev pub AsprintfStores : Env Call Reply → Type 0
AsprintfStores env =
    (h : List Call)
    → (is_minus_one (env h asprintf).ret ≡ true) ⊎ (is_zero (env h asprintf).ptr ≡ false)

-- The undefined pointer of an asprintf that has failed, which the label `fail` frees unless it is NULL.
abbrev pub stray : Kind → Reply → ℕ
stray path r = if is_minus_one r.ret then (if is_zero r.ptr then 0 else 1) else 0
stray k r = 0
