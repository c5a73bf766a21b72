-- ===== src/Driver/Suites/Reset.antt =====
-- What the reset of the mmap_dev2 buffer writes, and which pages of it can be mapped.
use mckernel_ostest_arm.Base.{
  ℕ, zero, suc, ◌+◌, ◌-◌, ◌*◌, ◌/◌, ◌%◌, ◌^◌, ◌≤◌, ◌<◌, ◌≡◌, ◌∙◌, true, false, ◌&&◌, arith, ltb,
  leb, Bool-cases, if◌then◌else◌, inl, inr, ◌⊎◌,
}
use mckernel_ostest_arm.Driver.Suites.{memset, buf_size, reset_loop, buffer_reset, vma_fault}
use mckernel_ostest_arm.Base.Int.{is_zero}
use mckernel_ostest_arm.Driver.Calls.{Dev, enomem, efault}

-- The byte that the reset leaves at an offset: the page's number, counted from 1, cut to a byte.
abbrev pub page_byte : ℕ → ℕ → ℕ
page_byte page_size a = (a / page_size + 1) % 256

div-of_bounds : (p k a : ℕ) → k * p ≤ a → a < k * p + p → a / p ≡ k
div-of_bounds p k a lo hi = grind arith

mul_le : (j k p : ℕ) → j ≤ k → j * p ≤ k * p
mul_le j k p h = grind arith

-- A page that begins inside the buffer ends inside it, so each round fills a whole page.
page_fits : (p k : ℕ) → k * p < buf_size p → k * p + p ≤ buf_size p
page_fits p k h = elim (Bool-cases (leb k (p / 8))) [
  | inl le ↦ omega (arith, mul_le k (p / 8) p (ground arith))
  | inr gt ↦ absurd (omega (arith, mul_le (suc (p / 8)) k p (ground arith)))
]

len_page :
    (p k : ℕ)
    → k * p < buf_size p
    → (if ltb (k * p + p) (buf_size p) then p else buf_size p - k * p) ≡ p
len_page p k h = ground (arith, page_fits p k h)

reset_loop_lem :
    (p fuel k : ℕ) (mem : ℕ → ℕ) (a : ℕ)
    → p / 8 + 1 < fuel + k
    → reset_loop p fuel (k * p) (k + 1) mem a
      ≡ (if leb (k * p) a && ltb a (buf_size p) then page_byte p a else mem a)
unfolding reset_loop memset
reset_loop_lem p zero k mem a enough = ground (arith, mul_le (suc (p / 8)) k p (omega arith))
reset_loop_lem p (suc fuel) k mem a enough = elim (Bool-cases (ltb (k * p) (buf_size p))) [
  | inl inside ↦
      let within : k * p < buf_size p = ground arith in
      let step : k * p + p ≡ suc k * p = omega arith in
      let next : k + 1 ≡ suc k = omega arith in
      rw (inside, len_page p k within, step, next)
        (rw (reset_loop_lem p fuel (suc k) (memset mem (k * p) (suc k) p) a (omega arith))
          (ground (arith, page_fits p k within, div-of_bounds p k a)))
  | inr outside ↦ rw outside (ground arith)
]

-- After a reset each byte of the buffer holds the number of its page, counted from 1 and cut to a
-- byte, and no byte outside the buffer has changed.
pub buffer_reset-page_byte :
    (page_size : ℕ) (mem : ℕ → ℕ) (a : ℕ)
    → buffer_reset page_size mem a
      ≡ (if ltb a (buf_size page_size) then page_byte page_size a else mem a)
unfolding buffer_reset
buffer_reset-page_byte p mem a =
    let none_left : 0 * p ≡ 0 = omega arith in
    let all = rw none_left at (reset_loop_lem p (p / 8 + 2) 0 mem a (omega arith)) in
    all ∙ ground arith

-- A fault of the mmap_dev2 device whose page offset in bytes is below 2^64 is refused with -ENOMEM if
-- there is no buffer, and with -EFAULT if the offset is not inside the buffer. Otherwise it maps the
-- page at the offset, which lies in the buffer, and after a reset each byte of that page is its
-- number, counted from 1 and cut to a byte.
pub vma_fault_page :
    (page_size : ℕ) (dev : Dev) (pgoff : ℕ) (mem : ℕ → ℕ)
    → pgoff * page_size < 2 ^ 64
    → ((is_zero dev.private_data ≡ true) × (vma_fault page_size dev pgoff ≡ inr enomem))
      ⊎ ((is_zero dev.private_data ≡ false)
          × (buf_size page_size ≤ pgoff * page_size)
          × (vma_fault page_size dev pgoff ≡ inr efault))
      ⊎ ((is_zero dev.private_data ≡ false)
          × (vma_fault page_size dev pgoff ≡ inl (pgoff * page_size))
          × (pgoff * page_size + page_size ≤ buf_size page_size)
          × ((i : ℕ)
              → i < page_size
              → buffer_reset page_size mem (pgoff * page_size + i) ≡ (pgoff + 1) % 256))
unfolding vma_fault
vma_fault_page p dev g mem small = elim (Bool-cases (is_zero dev.private_data)) [
  | inl null ↦ inl (null, rw null)
  | inr buffer ↦ elim (Bool-cases (leb (buf_size p) (g * p))) [
    | inl out ↦ inr (inl (buffer, ground arith, rw buffer (ground arith)))
    | inr inside ↦
        let within : g * p < buf_size p = ground arith in
        inr (
          inr (
            buffer,
            rw buffer (ground arith),
            page_fits p g within,
            λ i lt. ground (
              arith,
              page_fits p g within,
              buffer_reset-page_byte p mem (g * p + i),
              div-of_bounds p g (g * p + i),
            ),
          ))
  ]
]
