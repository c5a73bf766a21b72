-- ===== src/Mempolicy/Sound/Cases.antt =====
-- The test cases of test_mck/src/mbind, set_mempolicy and get_mempolicy that ask for what is documented.
use mckernel_ostest_arm.Base.{ℕ, List, [], ◌∷◌, ◌++◌, refl}
use mckernel_ostest_arm.Mempolicy.{Case}
use mckernel_ostest_arm.Mempolicy.Sound.{Sound}
use mckernel_ostest_arm.Mempolicy.Bind
use mckernel_ostest_arm.Mempolicy.Assign
use mckernel_ostest_arm.Mempolicy.Fetch

-- Those of test_mck/src/mbind but 027.c.
abbrev sound_bind_cases : (page_size max_node tmp_buf : ℕ) → List Case
sound_bind_cases page_size max_node tmp_buf =
    Bind.case_000 page_size max_node tmp_buf
    ∷ Bind.case_001 page_size max_node tmp_buf
    ∷ Bind.case_002 page_size max_node tmp_buf
    ∷ Bind.case_003 page_size max_node tmp_buf
    ∷ Bind.case_004 page_size max_node tmp_buf
    ∷ Bind.case_005 page_size max_node tmp_buf
    ∷ Bind.case_006 page_size max_node tmp_buf
    ∷ Bind.case_007 page_size max_node tmp_buf
    ∷ Bind.case_008 page_size max_node tmp_buf
    ∷ Bind.case_009 page_size max_node tmp_buf
    ∷ Bind.case_010 page_size max_node tmp_buf
    ∷ Bind.case_011 page_size max_node tmp_buf
    ∷ Bind.case_012 page_size max_node tmp_buf
    ∷ Bind.case_013 page_size max_node tmp_buf
    ∷ Bind.case_014 page_size max_node tmp_buf
    ∷ Bind.case_024 page_size max_node tmp_buf
    ∷ Bind.case_025 page_size max_node tmp_buf
    ∷ Bind.case_026 page_size max_node tmp_buf
    ∷ Bind.case_028 page_size max_node tmp_buf
    ∷ Bind.case_029 page_size max_node tmp_buf
    ∷ Bind.case_030 page_size max_node tmp_buf
    ∷ []

abbrev pub sound_cases : (page_size max_node tmp_buf : ℕ) → List Case
sound_cases page_size max_node tmp_buf =
    sound_bind_cases page_size max_node tmp_buf
    ++ (Assign.cases page_size max_node ++ Fetch.cases page_size max_node tmp_buf)

-- The test case 027.c of test_mck/src/mbind does not: it asserts that the errno is another one than the
-- EIO that is documented.
pub case_027-not-Sound :
    (page_size max_node tmp_buf : ℕ)
    → ¬ Sound page_size max_node (Bind.case_027 page_size max_node tmp_buf)
case_027-not-Sound p m b sound = sound.1.0.2 refl
