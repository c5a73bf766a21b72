-- ===== src/Driver/ProcRead/Sequence.antt =====
-- What successive reads of a procfs file give.
use mckernel_ostest_arm.Base.{
  ℕ, zero, suc, ◌+◌, ◌-◌, ◌%◌, ◌^◌, ◌≤◌, ◌<◌, List, [], ◌∷◌, ◌++◌, false, ◌≡◌, refl, sym, ap, ◌∙◌,
  arith, ltb, length, drop, min, take-append-drop, append_assoc, if◌then◌else◌,
}
use mckernel_ostest_arm.Driver.ProcRead.{string_read}

-- The bytes of a sequence of reads of the given sizes, and the position after it.
unfoldable pub read_seq : List ℕ → (sizes : List ℕ) → (ppos : ℕ) → List ℕ × ℕ
read_seq string [] ppos = ([], ppos)
read_seq string (n ∷ sizes) ppos =
    let r = string_read false string n ppos in
    let (bytes, ppos') = read_seq string sizes r.ppos in (r.bytes ++ bytes, ppos')

abbrev pub total : List ℕ → ℕ
total [] = 0
total (n ∷ sizes) = n + total sizes

-- The sizes that the kernel passes are far below half the range of an unsigned long.
abbrev pub Small : List ℕ → Type 0
Small [] = Unit
Small (n ∷ sizes) = (n < 2 ^ 63) × Small sizes

drop-drop : {A : Type 0} (n m : ℕ) (xs : List A) → drop n (drop m xs) ≡ drop (m + n) xs
drop-drop n zero xs = let e : 0 + n ≡ n = omega arith in rw e
drop-drop n (suc m) [] = drop-nil n ∙ sym (drop-nil (suc m + n))
  where
    drop-nil : {A : Type 0} (k : ℕ) → drop {A = A} k [] ≡ []
    drop-nil zero = refl
    drop-nil (suc k) = refl
drop-drop n (suc m) (x ∷ xs) =
    let e : suc m + n ≡ suc (m + n) = omega arith in rw e (drop-drop n m xs)

string_read_lem :
    (string : List ℕ) (n ppos : ℕ)
    → length string < 2 ^ 63
    → n < 2 ^ 63
    → ppos ≤ length string
    → let r = string_read false string n ppos in
      (r.bytes ++ drop r.ppos string ≡ drop ppos string) × (r.ppos ≡ min (ppos + n) (length string))
unfolding string_read
string_read_lem string n ppos short small within =
    let len = length string in
    let inside : ltb len ppos ≡ false = ground arith in
    let count : ℕ = if ltb len ((ppos + n) % 2 ^ 64) then len - ppos else n in
    rw inside
      (rw (← drop-drop count ppos string) (take-append-drop count (drop ppos string)), ground arith)

-- For a text shorter than 2^63 bytes and sizes below 2^63, reads that copy without fault, begun
-- inside the text, give its bytes from the position on, without a gap or a repetition: what they
-- give and what lies behind the final position make up what lay behind the first. The final
-- position is the first one advanced by all that was asked for, or the end of the text.
pub read_seq_lem :
    (string sizes : List ℕ) (ppos : ℕ)
    → length string < 2 ^ 63
    → Small sizes
    → ppos ≤ length string
    → let (bytes, ppos') = read_seq string sizes ppos in
      (bytes ++ drop ppos' string ≡ drop ppos string)
      × (ppos' ≡ min (ppos + total sizes) (length string))
unfolding read_seq
read_seq_lem string [] ppos short small within = (refl, omega arith)
read_seq_lem string (n ∷ sizes) ppos short small within =
    let r = string_read false string n ppos in
    let (now, here) = string_read_lem string n ppos short small.0 within in
    let (later, there) = read_seq_lem string sizes r.ppos short small.1 (omega arith) in
    (
      append_assoc r.bytes (read_seq string sizes r.ppos).0
            (drop (read_seq string sizes r.ppos).1 string)
          ∙ ap (λ (l : List ℕ). r.bytes ++ l) later
          ∙ now,
      omega arith,
    )
