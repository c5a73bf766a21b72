-- ===== src/Remap/Access.antt =====
-- What the memory checks find.
use mckernel_ostest_arm.Base.{
  ℕ, zero, suc, ◌+◌, ◌-◌, ◌≤◌, ◌<◌, ◌≡◌, ◌↔◌, ◌⊎◌, refl, true, false, none, ◌==◌, arith, Bool-cases,
  ==_iff, eq_self, inl, inr,
}
use mckernel_ostest_arm.Remap.Checks.{Memory, data_check, access_check}

data_check_sound :
    (mem : Memory) (p len exp : ℕ)
    → data_check mem p len exp ≡ none
    → (i : ℕ) → i < len
    → mem (p + i) ≡ exp
unfolding data_check
data_check_sound mem p zero exp e i lt = elim lt [ ]
data_check_sound mem p (suc len) exp e i lt = elim (Bool-cases (mem p == exp)) [
  | inr miss ↦ cc (rw miss at e)
  | inl hit ↦
      here_or_later i lt ((==_iff (mem p) exp).0 hit)
        (data_check_sound mem (p + 1) len exp (rw hit at e))
]
  where
    here_or_later :
        (i : ℕ)
        → i < suc len
        → mem p ≡ exp
        → ((j : ℕ) → j < len → mem (p + 1 + j) ≡ exp)
        → mem (p + i) ≡ exp
    here_or_later zero lt here later = let q : p + 0 ≡ p = omega arith in rw q here
    here_or_later (suc j) lt here later =
        let q : p + suc j ≡ p + 1 + j = omega arith in rw q (later j (omega arith))

data_check_complete :
    (mem : Memory) (p len exp : ℕ)
    → ((i : ℕ) → i < len → mem (p + i) ≡ exp)
    → data_check mem p len exp ≡ none
unfolding data_check
data_check_complete mem p zero exp all = refl
data_check_complete mem p (suc len) exp all =
    let q : p + 0 ≡ p = omega arith in
    let hit : (mem p == exp) ≡ true = (==_iff (mem p) exp).1 (rw q at (all 0 (omega arith))) in
    rw hit (
      data_check_complete mem (p + 1) len exp λ j lt.
        let next : p + 1 + j ≡ p + suc j = omega arith in rw next (all (suc j) (omega arith)))

-- The check passes exactly when every byte of the range is the one expected.
pub data_check_iff :
    (mem : Memory) (p len exp : ℕ)
    → (data_check mem p len exp ≡ none) ↔ ((i : ℕ) → i < len → mem (p + i) ≡ exp)
data_check_iff mem p len exp = (data_check_sound mem p len exp, data_check_complete mem p len exp)

-- On memory that can be written, the access check of an address other than NULL passes, leaves '0'
-- in every byte of the range, and changes no byte outside it.
access_check_lem :
    (mem : Memory) (addr len : ℕ)
    → 0 < addr
    → let (msg, mem') = access_check mem addr len in
      (msg ≡ none)
      × (data_check mem' addr len b'0' ≡ none)
      × ((a : ℕ) → (a < addr) ⊎ (addr + len ≤ a) → mem' a ≡ mem a)
unfolding access_check
access_check_lem mem addr zero h =
    let there : (addr == 0) ≡ false = ground arith in
    rw there (refl, data_check_complete mem addr 0 b'0' (λ i lt. elim lt [ ]), λ a out. refl)
access_check_lem mem addr (suc len) h =
    let there : (addr == 0) ≡ false = ground arith in
    let some_len : (suc len == 0) ≡ false = ground arith in
    rw (there, some_len, eq_self addr)
      (rw (eq_self (addr + suc len - 1)) (
        refl,
        data_check_complete _ addr (suc len) b'0' (λ i lt. ground arith),
        λ a out. ground arith,
      ))
