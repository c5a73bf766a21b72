-- ===== src/Remap/Cases/Sound.antt =====
-- What the test cases of test_mck/src/mremap_mmap_anon ask for, compared with what mremap(2) documents.
use mckernel_ostest_arm.Base.{
  ℕ, ◌+◌, ◌-◌, ◌≤◌, ◌<◌, List, [], ◌∷◌, Bool, true, false, Option, none, some, ◌≡◌, ◌⊎◌, get_elem?,
  length,
}
use mckernel_ostest_arm.Remap.Anon.{Param}
use mckernel_ostest_arm.Remap.Cases.{
  Expect, succeeds, moves, refused, Place, in_remap, in_param, Check, has_data, has_access, raises,
  Case,
}
use mckernel_ostest_arm.Remap.Cases.Addresses.{sizes, start}
use mckernel_ostest_arm.Remap.Cases.Private
use mckernel_ostest_arm.Remap.Cases.Shared
use mckernel_ostest_arm.Remap.Cases.LargePrivate
use mckernel_ostest_arm.Remap.Cases.LargeShared

abbrev size_at : List Param → (i : ℕ) → ℕ
size_at params i = elim (get_elem? params i) [ none ↦ 0 | some p ↦ p.size ]

abbrev is_free : List Param → (i : ℕ) → Bool
is_free params i = elim (get_elem? params i) [ none ↦ false | some p ↦ p.nopage ]

abbrev is_shared : List Param → (i : ℕ) → Bool
is_shared params i = elim (get_elem? params i) [ none ↦ false | some p ↦ p.shared ]

-- Memory that is mapped after the call: in what mremap returned, of a shared element no more than the
-- old size, since its object does not grow; in an element that is not the one mremap was called for.
abbrev Inside : Case → Place → (len : ℕ) → Type 0
Inside c (in_remap off) len =
    (off + len ≤ c.new_size) × ((off + len ≤ c.old_size) ⊎ (is_shared c.params c.from ≡ false))
Inside c (in_param i off) len = (off + len ≤ size_at c.params i) × (1 ≤ (i - c.from) + (c.from - i))

-- The byte there: mremap_mmap_anon fills an element with the digit of its number, and mremap keeps
-- the bytes of the old size.
abbrev Holds : Case → Place → (len exp : ℕ) → Type 0
Holds c (in_remap off) len exp = (off + len ≤ c.old_size) × (exp ≡ b'0' + c.from)
Holds c (in_param i off) len exp = exp ≡ b'0' + i

-- A range moves where MREMAP_FIXED asks for it, and where it has to grow and a mapping follows it.
abbrev HasMoved : Case → Type 0
HasMoved c =
    (c.expect ≡ moves)
    ⊎ ((c.old_size < c.new_size)
        × (is_free c.params (c.from + 1) ≡ false)
        × (c.from + 1 < length c.params))

-- The signal of a load: SIGSEGV where nothing is mapped afterwards, which is behind the new size or
-- where an element was that has moved, and SIGBUS behind the end of a shared object.
abbrev Raises : Case → (sig : ℕ) → Place → Type 0
Raises c sig (in_remap off) =
    ((sig ≡ 11) × (c.new_size ≤ off))
    ⊎ ((sig ≡ 7) × (c.old_size ≤ off) × (off < c.new_size) × (is_shared c.params c.from ≡ true))
Raises c sig (in_param i off) = (sig ≡ 11) × (i ≡ c.from) × (off < c.old_size) × HasMoved c

abbrev ChecksSound : Case → List Check → Type 0
ChecksSound c [] = 0 ≤ 0
ChecksSound c (has_data at len exp ∷ checks) =
    Inside c at len × Holds c at len exp × ChecksSound c checks
ChecksSound c (has_access len ∷ checks) = Inside c (in_remap 0) len × ChecksSound c checks
ChecksSound c (raises sig at ∷ checks) = Raises c sig at × ChecksSound c checks

-- What mremap(2) documents of a call at these addresses, of a range that is mapped as a whole.
-- MREMAP_FIXED together with MREMAP_MAYMOVE moves it, and is refused with EINVAL where the new range
-- overlaps the old one. Without MREMAP_FIXED the call succeeds where the range does not grow, may
-- move, or is followed by enough free space, and is refused with ENOMEM where the range has to grow,
-- may not move and is followed by a mapping.
abbrev Documented : (addr naddr : ℕ) → Case → Expect → (to : Option (ℕ × ℕ)) → Type 0
Documented addr naddr c moves (some to) =
    (c.flags ≡ 3) × ((addr + c.old_size ≤ naddr) ⊎ (naddr + c.new_size ≤ addr))
Documented addr naddr c (refused e) (some to) =
    (e ≡ 22) × (c.flags ≡ 3) × (addr < naddr + c.new_size) × (naddr < addr + c.old_size)
Documented addr naddr c succeeds none =
    (c.flags ≡ 1)
    ⊎ ((c.flags ≡ 0)
        × ((c.new_size ≤ c.old_size)
            ⊎ ((is_free c.params (c.from + 1) ≡ true)
                × (c.new_size ≤ c.old_size + size_at c.params (c.from + 1)))))
Documented addr naddr c (refused e) none =
    (e ≡ 12)
    × (c.old_size < c.new_size)
    × (c.flags ≡ 0)
    × (is_free c.params (c.from + 1) ≡ false)
    × (c.from + 1 < length c.params)
Documented addr naddr c e to = 1 ≤ 0

-- The element and the distance of `naddr`, from the start of the reserved range on.
abbrev pub Target : List Param → (naddr : ℕ) → (to : Option (ℕ × ℕ)) → Type 0
Target params naddr none = naddr ≡ 0
Target params naddr (some (j, off)) = (naddr ≡ start (sizes params) j + off) × (j < length params)

-- The range of a case is mapped, an element that has pages; its call is as documented wherever the
-- elements begin; its checks look at memory that is mapped, expect what it holds, and the signals
-- that it raises.
abbrev pub Sound : Case → Type 0
Sound c =
    (c.from < length c.params)
    × (is_free c.params c.from ≡ false)
    × (c.old_size ≤ size_at c.params c.from)
    × ((naddr : ℕ) × Target c.params naddr c.to
        × Documented (start (sizes c.params) c.from) naddr c c.expect c.to)
    × ChecksSound c c.checks

abbrev EachSound : List Case → Type 0
EachSound [] = 0 ≤ 0
EachSound (c ∷ cases) = Sound c × EachSound cases

-- All cases of a list are sound but the second one, whose old range is larger than its element.
abbrev pub SoundButSecond : List Case → Type 0
SoundButSecond [] = 1 ≤ 0
SoundButSecond (c ∷ []) = 1 ≤ 0
SoundButSecond (c ∷ d ∷ cases) = Sound c × (size_at d.params d.from < d.old_size) × EachSound cases
