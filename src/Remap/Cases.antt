-- ===== src/Remap/Cases.antt =====
-- The test cases of test_mck/src/mremap_mmap_anon: what their RUN_FUNCs have in common. Each one lays
-- out a range, moves or resizes one of its parts by mremap, and looks at the memory.
pub mod Private
pub mod Shared
pub mod LargePrivate
pub mod LargeShared
pub mod Addresses
pub mod Sound
use mckernel_ostest_arm.Base.{
  ℕ, zero, suc, ◌+◌, ◌*◌, ◌%◌, ◌^◌, List, [], ◌∷◌, ◌++◌, map, Bool, true, false, ◌&&◌, not, Option,
  none, some, ◌==◌, length, get_elem?, if◌then◌else◌,
}
use mckernel_ostest_arm.Base.Int.{ℤ, pos, negsuc, is_zero, is_minus_one, pos_part, eq_ℤ}
use mckernel_ostest_arm.Base.Trace.{Env, Proc, pure, call, ◌>>=◌}
use mckernel_ostest_arm.Harness.Number.{align_up}
use mckernel_ostest_arm.Remap.Anon.{Param, Call, mremap_mmap_anon}
use mckernel_ostest_arm.Remap.Checks.{Memory, data_check, access_check}
use mckernel_ostest_arm.Remap.Checks

-- MREMAP_RANGE_SIZE and MREMAP_RANGE_LARGE_SIZE of testsuite.h
abbrev pub range_size : (page_size : ℕ) → ℕ
range_size page_size = page_size * 4

unfoldable pub range_large_size : (page_size large_page_size : ℕ) → ℕ
unfolding align_up
range_large_size page_size large_page_size = align_up large_page_size (range_size page_size)

-- The constants of sys/mman.h, errno.h and signal.h
abbrev pub prot_none : ℕ
prot_none = 0

abbrev pub prot_read : ℕ
prot_read = 1

abbrev pub prot_write : ℕ
prot_write = 2

abbrev pub mremap_maymove : ℕ
mremap_maymove = 1

abbrev pub mremap_fixed : ℕ
mremap_fixed = 2

abbrev pub enomem : ℕ
enomem = 12

abbrev pub einval : ℕ
einval = 22

abbrev pub sigbus : ℕ
sigbus = 7

abbrev pub sigsegv : ℕ
sigsegv = 11

-- Elements of `params`: a part that is mapped, and a free one. Fields that are not named are 0.
abbrev pub used : (size prot : ℕ) → (shared : Bool) → Param
used size prot shared = record {
  addr = pos 0;
  size = size;
  nopage = false;
  shared = shared;
  prot = prot;
}

abbrev pub free : (size : ℕ) → Param
free size = record { addr = pos 0; size = size; nopage = true; shared = false; prot = 0 }

-- What a case asserts of the result of mremap and of errno.
pub data Expect : Type 0 where
  succeeds : Expect
  moves : Expect
  refused : (errno : ℕ) → Expect

-- An address that a case looks at: behind the result, or behind the address of an element.
pub data Place : Type 0 where
  in_remap : (off : ℕ) → Place
  in_param : (i off : ℕ) → Place

-- A check: the byte that all of a range should have, the access to a range, and a load that should
-- raise a signal.
pub data Check : Type 0 where
  has_data : Place → (len exp : ℕ) → Check
  has_access : (len : ℕ) → Check
  raises : (sig : ℕ) → Place → Check

-- The parts in which the RUN_FUNCs differ. `from` is the element that `addr` comes from, and `to`
-- the one of `naddr`, with what is added to its address.
pub record Case : Type 0 where
  pub params : List Param
  pub old_size : ℕ
  pub new_size : ℕ
  pub from : ℕ
  pub to : Option (ℕ × ℕ)
  pub flags : ℕ
  pub expect : Expect
  pub checks : List Check

pub data Event : Type 0 where
  anon : Call → Event
  mremap : (addr old_size new_size flags naddr : ℕ) → Event
  look : Event
  setup_signal_handler : (sig : ℕ) → Event
  touch : (addr : ℕ) → Event

-- What a call returns, errno after it, the memory that is looked at, and whether a load raises the
-- signal of the handler.
pub record Answer : Type 0 where
  pub ret : ℤ
  pub errno : ℕ
  pub mem : Memory
  pub raised : Bool

pub data Message : Type 0 where
  mmap_error mremap_error invalid_errno sigaction_error signal_error : Message
  failed : Checks.Message → Message

-- RUN_FUNC returns, or the handler ends the process with status 0.
pub data Ended : Type 0 where
  returned : Option Message → Ended
  exited : Ended

abbrev pub addr_of : List Param → (i : ℕ) → ℕ
addr_of params i = elim (get_elem? params i) [ none ↦ 0 | some p ↦ pos_part p.addr ]

abbrev pub place_addr : List Param → (remap : ℕ) → Place → ℕ
place_addr params remap (in_remap off) = remap + off
place_addr params remap (in_param i off) = addr_of params i + off

abbrev pub naddr_of : List Param → Option (ℕ × ℕ) → ℕ
naddr_of params none = 0
naddr_of params (some (i, off)) = addr_of params i + off

-- The two asserts after mremap: the first one's result, and errno's expected value.
abbrev pub result_ok : Expect → (naddr : ℕ) → ℤ → Bool
result_ok succeeds naddr r = not (is_minus_one r)
result_ok moves naddr r = eq_ℤ r (pos naddr)
result_ok (refused e) naddr r = is_minus_one r

abbrev pub errno_of : Expect → ℕ
errno_of (refused e) = e
errno_of e = 0

module _ (env : Env Event Answer) where
  abbrev pub anon_env : List Event → Env Call ℤ
  anon_env h calls c = (env (map anon calls ++ h) (anon c)).ret

  unfoldable pub lay_out : List Param → Proc Event (List Param × ℕ)
  lay_out params h =
      let (laid, calls) = mremap_mmap_anon (anon_env h) params [] in (laid, map anon calls ++ h)

  unfoldable pub run_checks : List Param → (remap : ℕ) → List Check → Proc Event Ended
  run_checks params remap [] = pure (returned none)
  run_checks params remap (has_data at len exp ∷ checks) = call env look >>= λ a.
      elim (data_check a.mem (place_addr params remap at) len exp) [
        | some m ↦ pure (returned (some (failed m)))
        | none ↦ run_checks params remap checks
      ]
  run_checks params remap (has_access len ∷ checks) = call env look >>= λ a.
      elim (access_check a.mem remap len).0 [
        | some m ↦ pure (returned (some (failed m)))
        | none ↦ run_checks params remap checks
      ]
  run_checks params remap (raises sig at ∷ checks) = do
    s ← call env (setup_signal_handler sig)
    if not (is_zero s.ret) then pure (returned (some sigaction_error)) else do
      t ← call env (touch (place_addr params remap at))
      pure (if t.raised then exited else returned (some signal_error))

  unfoldable pub run_case : Case → Proc Event Ended
  run_case c = do
    (params, maps) ← lay_out c.params
    if not (maps == length c.params) then pure (returned (some mmap_error)) else do
      let naddr = naddr_of params c.to
      r ← call env (mremap (addr_of params c.from) c.old_size c.new_size c.flags naddr)
      if not (result_ok c.expect naddr r.ret)
          then pure (returned (some mremap_error))
          else if not (r.errno == errno_of c.expect)
          then pure (returned (some invalid_errno))
          else run_checks params (pos_part r.ret) c.checks
