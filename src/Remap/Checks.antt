-- ===== src/Remap/Checks.antt =====
-- The arguments and the memory checks of mremap_mmap_anon.c. Memory is a byte for each address;
-- writes to it succeed.
use mckernel_ostest_arm.Base.{
  ℕ, zero, suc, ◌+◌, ◌-◌, List, [], ◌∷◌, ◌&&◌, Option, none, some, ltb, leb, ◌==◌, not,
  if◌then◌else◌,
}

-- `struct mremap_args` of testsuite.h
pub record MremapArgs : Type 0 where
  pub text : ℕ
  pub text_len : ℕ
  pub data_start : ℕ
  pub data_len : ℕ
  pub bss : ℕ
  pub bss_len : ℕ

-- The options, with what test_mck_strtoul makes of their arguments; `unknown` is '?'.
pub data Opt : Type 0 where
  text text_len data_start data_len bss bss_len : ℕ → Opt
  unknown : Opt

unfoldable pub parse_argument : List Opt → MremapArgs → MremapArgs
parse_argument [] a = a
parse_argument (text v ∷ opts) a = parse_argument opts (record a { text = v })
parse_argument (text_len v ∷ opts) a = parse_argument opts (record a { text_len = v })
parse_argument (data_start v ∷ opts) a = parse_argument opts (record a { data_start = v })
parse_argument (data_len v ∷ opts) a = parse_argument opts (record a { data_len = v })
parse_argument (bss v ∷ opts) a = parse_argument opts (record a { bss = v })
parse_argument (bss_len v ∷ opts) a = parse_argument opts (record a { bss_len = v })
parse_argument (unknown ∷ opts) a = parse_argument opts a

-- The messages that the functions return; NULL is `none`.
pub data Message : Type 0 where
  bad_text bad_text_len bad_data bad_data_len bad_bss bad_bss_len : Message
  data_check_error invalid_address first_page_error last_page_error : Message

unfoldable pub verify_section_argument : MremapArgs → Option Message
verify_section_argument a =
    if a.text == 0
    then some bad_text
    else if a.text_len == 0
    then some bad_text_len
    else if a.data_start == 0
    then some bad_data
    else if a.data_len == 0
    then some bad_data_len
    else if a.bss == 0
    then some bad_bss
    else if a.bss_len == 0
    then some bad_bss_len
    else none

abbrev pub Memory : Type 0
Memory = ℕ → ℕ

abbrev pub store : Memory → ℕ → ℕ → Memory
store mem p v a = if a == p then v else mem a

abbrev pub fill : Memory → (start len v : ℕ) → Memory
fill mem start len v a = if leb start a && ltb a (start + len) then v else mem a

-- The loop of the check, over `left` bytes from `p` on.
unfoldable pub data_check : Memory → (p left exp : ℕ) → Option Message
data_check mem p zero exp = none
data_check mem p (suc left) exp =
    let rest = data_check mem (p + 1) left exp in
    if mem p == exp then rest else some data_check_error

-- The message and the memory after the check; the bytes are 'A', 'Z' and '0'.
unfoldable pub access_check : Memory → (addr len : ℕ) → Option Message × Memory
access_check mem addr len =
    if addr == 0
    then (some invalid_address, mem)
    else if len == 0
    then (none, mem)
    else let mem1 = store mem addr b'A' in
      if not (mem1 addr == b'A')
      then (some first_page_error, mem1)
      else let mem2 = store mem1 (addr + len - 1) b'Z' in
        if not (mem2 (addr + len - 1) == b'Z')
        then (some last_page_error, mem2)
        else (none, fill mem2 addr len b'0')
