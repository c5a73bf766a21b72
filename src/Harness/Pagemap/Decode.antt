-- ===== src/Harness/Pagemap/Decode.antt =====
-- Decoding an entry of the page map, and the descriptor that the function opens.
use mckernel_ostest_arm.Base.{
  ℕ, ◌+◌, ◌*◌, ◌/◌, ◌%◌, ◌^◌, ◌<◌, ◌≡◌, List, [], ◌∷◌, arith, if◌then◌else◌,
}
use mckernel_ostest_arm.Base.Int.{is_minus_one}
use mckernel_ostest_arm.Base.Trace.{Env}
use mckernel_ostest_arm.Harness.Pagemap.{
  Call, open_pagemap, close, lseek, read, Reply, page_size, decode, entry_offset,
}

-- The entry for a frame, the logarithm of its page's size, and the two flags.
abbrev pub encode : (frame pshift present swap : ℕ) → ℕ
encode frame pshift present swap = frame + 2 ^ 55 * (pshift + 64 * (2 * swap + 4 * present))

-- Decoding gives back what was encoded, when each part fits its bits and the physical address fits
-- 64 bits: the physical address is the frame's address with the offset of the virtual address.
pub decode-encode :
    (frame pshift present swap virt : ℕ)
    → frame < 2 ^ 52
    → pshift < 64
    → present < 2
    → swap < 2
    → decode (encode frame pshift present swap) virt ≡ record {
      phys = frame * page_size + virt % page_size;
      pgsize = 2 ^ pshift;
      present = present;
      swap = swap;
    }
unfolding decode
decode-encode frame pshift present swap virt f p a b =
    let shift : (encode frame pshift present swap) / 2 ^ 55 % 2 ^ 6 ≡ pshift = omega arith in
    rw shift (ground arith)

-- The descriptors that were opened in a history, and those closed.
abbrev pub opened : Env Call Reply → List Call → ℕ
opened env [] = 0
opened env (open_pagemap ∷ h) =
    opened env h + (if is_minus_one (env h open_pagemap).ret then 0 else 1)
opened env (c ∷ h) = opened env h

abbrev pub closed : List Call → ℕ
closed [] = 0
closed (close fd ∷ h) = closed h + 1
closed (c ∷ h) = closed h

-- The descriptor and the history at the call of read, when open and lseek have not failed.
abbrev pub at_read : Env Call Reply → (virt : ℕ) → List Call → List Call
at_read env virt h = lseek (env h open_pagemap).ret (entry_offset virt) ∷ open_pagemap ∷ h

abbrev pub read_reply : Env Call Reply → (virt : ℕ) → List Call → Reply
read_reply env virt h = env (at_read env virt h) (read (env h open_pagemap).ret)
