-- ===== src/CopyOnWrite.antt =====
-- lv11_copy_on_write/main.c: writing a string to a mapped file, and reading it. Files and mappings
-- are an environment's; printing is left out, also that of the mapped text.
pub mod Release
mod Tests
use mckernel_ostest_arm.Base.{
  ℕ, zero, suc, ◌+◌, ◌≤◌, List, [], ◌∷◌, Bool, true, false, ◌||◌, Option, none, some, ◌==◌, leb,
  length, take, if◌then◌else◌,
}
use mckernel_ostest_arm.Base.Int.{ℤ, pos, negsuc, is_minus_one}
use mckernel_ostest_arm.Base.Trace.{Env, Proc, pure, call, ◌>>=◌, ◌>>◌}

pub data Mode : Type 0 where
  mode_null mode_write mode_read : Mode

-- `struct args`, with the bits of `mmap_prot` (read, write, exec) and `mmap_flags` one by one.
pub record Args : Type 0 where
  pub mode : Mode
  pub sync : Bool
  pub prot_read : Bool
  pub prot_write : Bool
  pub prot_exec : Bool
  pub map_shared : Bool
  pub map_private : Bool
  pub path : List ℕ

pub data Call : Type 0 where
  open_file : (path : List ℕ) → (writable : Bool) → Call
  stat : (path : List ℕ) → Call
  mmap : (len prot flags : ℕ) → (fd : ℤ) → Call
  strcpy : (data_addr : ℤ) → (string : List ℕ) → Call
  msync : (data_addr : ℤ) → (len : ℕ) → Call
  munmap : (data_addr : ℤ) → (len : ℕ) → Call
  close_file : ℤ → Call

-- What a call returns, and the size that `stat` stores.
pub record Reply : Type 0 where
  pub ret : ℤ
  pub st_size : ℕ

abbrev pub bit : ℕ → Bool → ℕ
bit v set = if set then v else 0

-- PROT_READ, PROT_WRITE and PROT_EXEC; MAP_SHARED and MAP_PRIVATE
abbrev pub prot_of : Args → ℕ
prot_of a = bit 1 a.prot_read + bit 2 a.prot_write + bit 4 a.prot_exec

abbrev pub flags_of : Args → ℕ
flags_of a = bit 1 a.map_shared + bit 2 a.map_private

-- The loop over the first argument, and whether it came to its end: `false` is `goto fault`.
unfoldable pub parse_mode : List ℕ → Args → Bool × Args
parse_mode [] a = (true, a)
parse_mode (c ∷ arg) a =
    if c == b'w'
    then parse_mode arg (record a { mode = mode_write })
    else if c == b'r'
    then parse_mode arg (record a { mode = mode_read })
    else if c == b's'
    then parse_mode arg (record a { sync = true })
    else (false, a)

-- The loop over the second.
unfoldable pub parse_prot : List ℕ → Args → Bool × Args
parse_prot [] a = (true, a)
parse_prot (c ∷ arg) a =
    if c == b'r'
    then parse_prot arg (record a { prot_read = true })
    else if c == b'w'
    then parse_prot arg (record a { prot_write = true })
    else if c == b'e'
    then parse_prot arg (record a { prot_exec = true })
    else if c == b's'
    then parse_prot arg (record a { map_shared = true })
    else if c == b'p'
    then parse_prot arg (record a { map_private = true })
    else (false, a)

abbrev pub no_args : Args
no_args = record {
  mode = mode_null;
  sync = false;
  prot_read = false;
  prot_write = false;
  prot_exec = false;
  map_shared = false;
  map_private = false;
  path = [];
}

-- `strncpy` to a buffer of 1024 bytes, of which the last is then set to zero; and `fault`.
unfoldable pub parse_path : Bool × Args → List ℕ → Args
parse_path (true, a) path = record a { path = take 1023 path }
parse_path (false, a) path = record a { mode = mode_null }

unfoldable pub parse_flags : Bool × Args → (prot : List ℕ) → Bool × Args
unfolding parse_prot
parse_flags (true, a) prot = parse_prot prot a
parse_flags (false, a) prot = (false, a)

-- The last clause is `argc < 4`.
unfoldable pub parse_argument : List (List ℕ) → Args
unfolding parse_mode parse_flags parse_path
parse_argument (name ∷ mode ∷ prot ∷ path ∷ argv) =
    parse_path (parse_flags (parse_mode mode no_args) prot) path
parse_argument argv = no_args

-- "mmap-write"
abbrev pub mmap_write : List ℕ
mmap_write = b'm' ∷ b'm' ∷ b'a' ∷ b'p' ∷ b'-' ∷ b'w' ∷ b'r' ∷ b'i' ∷ b't' ∷ b'e' ∷ []

module _ (env : Env Call Reply) where
  -- The label `out`, with the mapping and the descriptor there.
  unfoldable pub finish : (addr : ℤ) → (size : ℕ) → (fd : ℤ) → (ret : ℤ) → Proc Call ℤ
  finish addr size fd ret =
      if is_minus_one addr
      then call env (close_file fd) >> pure ret
      else call env (munmap addr size) >> (call env (close_file fd) >> pure ret)

  -- From the check of `sync` on, which both functions share.
  unfoldable pub synchronize : (sync : Bool) → (addr : ℤ) → (size : ℕ) → (fd : ℤ) → Proc Call ℤ
  unfolding finish
  synchronize sync addr size fd =
      if sync
      then (call env (msync addr size) >>= λ r.
          finish addr size fd (if is_minus_one r.ret then negsuc 0 else pos 0))
      else finish addr size fd (pos 0)

  unfoldable pub write_to_file : Args → (string : List ℕ) → Proc Call ℤ
  unfolding finish synchronize
  write_to_file a string = do
    fd ← call env (open_file a.path true)
    if is_minus_one fd.ret then pure (negsuc 0) else do
      sbuf ← call env (stat a.path)
      if is_minus_one sbuf.ret
          then finish (negsuc 0) 0 fd.ret (negsuc 0)
          else if leb sbuf.st_size (length string)
          then finish (negsuc 0) 0 fd.ret (negsuc 0)
          else do
            mapped ← call env (mmap sbuf.st_size (prot_of a) (flags_of a) fd.ret)
            if is_minus_one mapped.ret then finish (negsuc 0) 0 fd.ret (negsuc 0) else do
              call env (strcpy mapped.ret string)
              synchronize a.sync mapped.ret sbuf.st_size fd.ret

  unfoldable pub read_from_file : Args → Proc Call ℤ
  unfolding finish synchronize
  read_from_file a = do
    fd ← call env (open_file a.path false)
    if is_minus_one fd.ret then pure (negsuc 0) else do
      sbuf ← call env (stat a.path)
      if is_minus_one sbuf.ret then finish (negsuc 0) 0 fd.ret (negsuc 0) else do
        mapped ← call env (mmap sbuf.st_size (prot_of a) (flags_of a) fd.ret)
        if is_minus_one mapped.ret
            then finish (negsuc 0) 0 fd.ret (negsuc 0)
            else synchronize a.sync mapped.ret sbuf.st_size fd.ret

  unfoldable pub run_mode : Mode → Args → Proc Call ℤ
  unfolding write_to_file read_from_file
  run_mode mode_read a = read_from_file a
  run_mode mode_write a = write_to_file a mmap_write
  run_mode mode_null a = pure (negsuc 0)

  unfoldable pub main : List (List ℕ) → Proc Call ℤ
  unfolding parse_argument run_mode
  main argv = let a = parse_argument argv in run_mode a.mode a
