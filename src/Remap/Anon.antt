-- ===== src/Remap/Anon.antt =====
-- mremap_mmap_anon: reserving one range and giving each of its parts its own mapping or none. mmap,
-- munmap and memset are answered by an environment.
use mckernel_ostest_arm.Base.{
  ℕ, suc, ◌+◌, ◌/◌, ◌%◌, ◌^◌, List, [], ◌∷◌, Bool, true, false, Option, none, some, ltb, ◌==◌, not,
  if◌then◌else◌,
}
use mckernel_ostest_arm.Base.Int.{ℤ, pos, negsuc, is_zero, is_minus_one, pos_part}
use mckernel_ostest_arm.Base.Trace.{Env, Proc, pure, call, ◌>>=◌, ◌>>◌}

-- `struct mremap_mmap_anon_param` of testsuite.h; an address is a number, MAP_FAILED is -1.
pub record Param : Type 0 where
  pub addr : ℤ
  pub size : ℕ
  pub nopage : Bool
  pub shared : Bool
  pub prot : ℕ

pub data Call : Type 0 where
  mmap : (addr len prot flags : ℕ) → Call
  munmap : (addr len : ℕ) → Call
  memset : (addr byte len : ℕ) → Call

abbrev pub map_failed : ℤ
map_failed = negsuc 0

abbrev pub map_shared : ℕ
map_shared = 1

abbrev pub map_private : ℕ
map_private = 2

abbrev pub map_fixed : ℕ
map_fixed = 0x10

abbrev pub map_anonymous : ℕ
map_anonymous = 0x20

-- The first loop: the total size, or `none` where the sum of two size_t wraps; and the parameters,
-- whose addresses are reset as far as the loop got.
unfoldable pub initialize : (total_size : ℕ) → List Param → Option ℕ × List Param
initialize total_size [] = (some total_size, [])
initialize total_size (p ∷ params) =
    let sum = (total_size + p.size) % 2 ^ 64 in
    let rest = initialize sum params in
    if ltb sum total_size
    then (none, p ∷ params)
    else (rest.0, record p { addr = map_failed } ∷ rest.1)

-- `params[i].prot & PROT_WRITE`
abbrev pub writable : Param → Bool
writable p = not (p.prot / 2 % 2 == 0)

module _ (env : Env Call ℤ) where
  -- One part of the range: whether the loop goes on, and the address behind the part.
  unfoldable pub place : (i addr : ℕ) → Param → Proc Call (Bool × ℕ)
  place i addr p =
      if p.nopage
      then (call env (munmap addr p.size) >>= λ r. pure (is_zero r, (addr + p.size) % 2 ^ 64))
      else (call env (
            mmap addr p.size p.prot
              (map_anonymous + map_fixed + (if p.shared then map_shared else map_private)))
          >>= λ r.
              let next = (pos_part r + p.size) % 2 ^ 64 in
              if is_minus_one r
              then pure (false, next)
              else if writable p
              then (call env (memset (pos_part r) ((0x30 + i) % 256) p.size) >> pure (true, next))
              else pure (true, next))

  -- The last loop, from index `i`: the parameters and the index that the function returns.
  unfoldable pub format : (i addr : ℕ) → List Param → Proc Call (List Param × ℕ)
  format i addr [] = pure ([], i)
  format i addr (p ∷ params) = do
    (going, next) ← place i addr p
    let p' = record p { addr = pos addr }
    let rest = format (suc i) next params
    if going then (rest >>= λ r. pure (p' ∷ r.0, r.1)) else pure (p' ∷ params, i)

  unfoldable pub mremap_mmap_anon : List Param → Proc Call (List Param × ℕ)
  mremap_mmap_anon params =
      let (total, params') = initialize 0 params in
      elim total [
        | none ↦ pure (params', 0)
        | some total_size ↦ call env (mmap 0 total_size 0 (map_shared + map_anonymous)) >>= λ r.
            if is_minus_one r then pure (params', 0) else format 0 (pos_part r) params'
      ]
