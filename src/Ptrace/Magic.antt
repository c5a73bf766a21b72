-- ===== src/Ptrace/Magic.antt =====
-- What setregset_check leaves in the child.
use mckernel_ostest_arm.Base.{
  ℕ, zero, suc, ◌<◌, ◌≡◌, ◌≢◌, refl, sym, ap, ◌∙◌, List, [], ◌∷◌, true, false, none, some, ◌==◌,
  ltb, ltb→lt, length, get_or, set, arith, Bool-cases, ==_iff, eq_self, inl, inr, ◌⊎◌,
}
use mckernel_ostest_arm.Base.Int.{pos, negsuc}
use mckernel_ostest_arm.Base.Trace.{Env}
use mckernel_ostest_arm.Ptrace.Calls.{
  Call, get_gregs, get_fregs, get_tls, get_system_call, set_gregs, set_fregs, set_tls,
  set_system_call, Reply,
}
use mckernel_ostest_arm.Ptrace.Regset.{
  not64, not128, find_magic, write_tls_val, write_sysno, Checked, write_gregs, write_fregs,
  check_tls, check_system_call, setregset_check, setregset_child_check,
}
use mckernel_ostest_arm.Ptrace.Tracee.{Tracee, after, Working}

below :
    (regs : List ℕ) (i j : ℕ)
    → (i == get_or regs i 0) ≡ false
    → j < suc i
    → get_or regs j 0 ≡ j
    → j < i
below regs i j miss lt own = elim (Bool-cases (ltb j i)) [
  | inl less ↦ ltb→lt j i less
  | inr ge ↦
      let same : j ≡ i = ground arith in
      let own_i : get_or regs i 0 ≡ i = rw same at own in ground arith
]

get_or-set : (xs : List ℕ) (i v : ℕ) → i < length xs → get_or (set xs i v) i 0 ≡ v
get_or-set [] i v lt = elim lt [ ]
get_or-set (x ∷ xs) zero v lt = refl
get_or-set (x ∷ xs) (suc i) v lt = get_or-set xs i v (omega arith)

-- The register that setregset_check chooses holds its own number, and no register after it does,
-- while it chooses none only if no register holds its own number.
pub find_magic-last :
    (regs : List ℕ) (left : ℕ)
    → ((find_magic regs left ≡ none) × ((j : ℕ) → j < left → get_or regs j 0 ≢ j))
      ⊎ ((i : ℕ) × (find_magic regs left ≡ some i)
          × (i < left)
          × (get_or regs i 0 ≡ i)
          × ((j : ℕ) → i < j → j < left → get_or regs j 0 ≢ j))
unfolding find_magic
find_magic-last regs zero = inl (refl, λ j lt. elim lt [ ])
find_magic-last regs (suc i) = elim (Bool-cases (i == get_or regs i 0)) [
  | inl hit ↦ inr (i, rw hit, omega arith, sym ((==_iff i _).0 hit), λ j low high. ground arith)
  | inr miss ↦ elim (find_magic-last regs i) [
    | inl (absent, all) ↦ inl (rw miss absent, λ j lt own. all j (below regs i j miss lt own) own)
    | inr (k, found, lt, own, all) ↦ inr (
      k,
      rw miss found,
      omega arith,
      own,
      λ j low lt own. all j low (below regs i j miss lt own) own,
    )
  ]
]

find_magic-at :
    (regs : List ℕ) (i left : ℕ)
    → i < left
    → get_or regs i 0 ≡ i
    → ((j : ℕ) → i < j → j < left → get_or regs j 0 ≢ j)
    → find_magic regs left ≡ some i
unfolding find_magic
find_magic-at regs i zero lt own last = elim lt [ ]
find_magic-at regs i (suc k) lt own last = elim (Bool-cases (ltb i k)) [
  | inl less ↦
      let miss : (k == get_or regs k 0) ≡ false =
        let high = last k (ltb→lt i k less) (omega arith) in ground arith in
      rw miss
        (find_magic-at regs i k (ltb→lt i k less) own (λ j low high. last j low (omega arith)))
  | inr ge ↦
      let same : k ≡ i = ground arith in
      let hit : (k == get_or regs k 0) ≡ true = rw same (rw own (eq_self i)) in
      rw hit (rw same refl)
]

-- The child with the marks that the check leaves in it, in general register `i` and in
-- floating-point register 16.
abbrev pub marked : ℕ → Tracee → Tracee
marked i now = record now {
  gregs = record now.gregs { regs = set now.gregs.regs i (not64 i) };
  fregs = record now.fregs { vregs = set now.fregs.vregs 16 (not128 16) };
}

module _ (env : Env Call Reply) (t : Tracee) (works : Working env t) where
  check_tls-restores :
      (h : List Call) → let (ok, h') = check_tls env h in (ok ≡ true) × (after t h' ≡ after t h)
  unfolding check_tls
  check_tls-restores h =
      let h1 = get_tls ∷ h in
      let h2 = set_tls write_tls_val ∷ h1 in
      let h3 = get_tls ∷ h2 in
      rw (works.succeeds h get_tls, works.reads_tls h, works.succeeds h1 (set_tls write_tls_val))
        (rw (works.succeeds h2 get_tls, works.reads_tls h2)
          (rw (works.succeeds h3 (set_tls (after t h).tls)) (refl, refl)))

  check_system_call-restores :
      (h : List Call)
      → let (ok, h') = check_system_call env h in (ok ≡ true) × (after t h' ≡ after t h)
  unfolding check_system_call
  check_system_call-restores h =
      let h1 = get_system_call ∷ h in
      let h2 = set_system_call write_sysno ∷ h1 in
      let h3 = get_system_call ∷ h2 in
      rw
        (
          works.succeeds h get_system_call,
          works.reads_sysno h,
          works.succeeds h1 (set_system_call write_sysno),
        )
        (rw (works.succeeds h2 get_system_call, works.reads_sysno h2)
          (rw (works.succeeds h3 (set_system_call (after t h).sysno)) (refl, refl)))

  setregset_check-found :
      (h : List Call) (i : ℕ)
      → find_magic (after t h).gregs.regs 31 ≡ some i
      → let (c, h') = setregset_check env h in
        (c ≡ record { ret = pos 0; gregno = some i; fregno = some 16 })
        × (after t h' ≡ marked i (after t h))
  unfolding setregset_check write_gregs write_fregs
  setregset_check-found h i found =
      let now = after t h in
      let h1 = get_gregs ∷ h in
      let h2 = set_gregs (record now.gregs { regs = set now.gregs.regs i (not64 i) }) ∷ h1 in
      let h3 = get_fregs ∷ h2 in
      let h4 = set_fregs (record now.fregs { vregs = set now.fregs.vregs 16 (not128 16) }) ∷ h3 in
      let tls = check_tls-restores h4 in
      let h5 = (check_tls env h4).1 in
      let sys = check_system_call-restores h5 in
      rw (works.succeeds h get_gregs, works.reads_gregs h, found)
        (rw
          (works.succeeds h1
            (set_gregs (record now.gregs { regs = set now.gregs.regs i (not64 i) })))
          (rw (works.succeeds h2 get_fregs, works.reads_fregs h2)
            (rw
              (works.succeeds h3
                (set_fregs (record now.fregs { vregs = set now.fregs.vregs 16 (not128 16) })))
              (rw (tls.0, sys.0) (refl, sys.1 ∙ tls.1)))))

  -- On a child whose requests work, of whose general registers 0 to 30 one holds its own number and
  -- no later one does, the check returns 0 and leaves that register marked, and floating-point
  -- register 16, with the thread pointer, the system call number and everything else as it was.
  pub setregset_check-marked :
      (h : List Call) (i : ℕ)
      → i < 31
      → get_or (after t h).gregs.regs i 0 ≡ i
      → ((j : ℕ) → i < j → j < 31 → get_or (after t h).gregs.regs j 0 ≢ j)
      → let (c, h') = setregset_check env h in
        (c ≡ record { ret = pos 0; gregno = some i; fregno = some 16 })
        × (after t h' ≡ marked i (after t h))
  setregset_check-marked h i lt own last =
      setregset_check-found h i (find_magic-at (after t h).gregs.regs i 31 lt own last)

  -- On a child whose requests work, of whose general registers none holds its own number, the check
  -- returns -1 and changes nothing in the child.
  pub setregset_check-no_magic :
      (h : List Call)
      → find_magic (after t h).gregs.regs 31 ≡ none
      → let (c, h') = setregset_check env h in (c.ret ≡ negsuc 0) × (after t h' ≡ after t h)
  unfolding setregset_check write_gregs
  setregset_check-no_magic h absent =
      rw (works.succeeds h get_gregs, works.reads_gregs h, absent) (refl, refl)

  -- When the check returns 0 on a child whose requests work and which has 31 general and 32
  -- floating-point registers, the child's own check of its registers, with the two numbers that the
  -- parent's stored, then returns 0 as well.
  pub setregset_child_check-setregset_check :
      (h : List Call)
      → length (after t h).gregs.regs ≡ 31
      → length (after t h).fregs.vregs ≡ 32
      → (setregset_check env h).0.ret ≡ pos 0
      → let (c, h') = setregset_check env h in
        let now = after t h' in
        (i : ℕ) × (f : ℕ) × (c.gregno ≡ some i)
        × (c.fregno ≡ some f)
        × (setregset_child_check i f now.gregs now.fregs.vregs ≡ pos 0)
  unfolding setregset_child_check
  setregset_child_check-setregset_check h lg lf ok =
      elim (find_magic-last (after t h).gregs.regs 31) [
        | inl (absent, all) ↦ elim (pos_neg (sym ok ∙ (setregset_check-no_magic h absent).0)) [ ]
        | inr (i, found, lt, own, all) ↦
            let (c, now) = setregset_check-found h i found in
            (
              i,
              16,
              ap (λ (x : Checked). x.gregno) c,
              ap (λ (x : Checked). x.fregno) c,
              rw now (
                  rw
                    (get_or-set (after t h).gregs.regs i (not64 i) (omega arith), eq_self (not64 i))
                    (rw (get_or-set (after t h).fregs.vregs 16 (not128 16) (omega arith)) refl)),
            )
      ]
    where
      pos_neg : {a b : ℕ} → pos a ≡ negsuc b → ⊥
      pos_neg e = cc
