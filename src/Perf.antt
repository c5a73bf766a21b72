-- ===== src/Perf.antt =====
-- cpu_pa_info/src/common.c: the event table's size and one measurement cycle over ihklib. The calls
-- of ihklib, calloc and free are answered by an environment; printing is left out.
pub mod Cases
pub mod Protocol
pub mod Sequence
mod Tests
use mckernel_ostest_arm.Base.{ℕ, List, if◌then◌else◌}
use mckernel_ostest_arm.Base.Int.{ℤ, pos, is_neg, is_zero, pos_part}
use mckernel_ostest_arm.Base.Trace.{Env, Proc, pure, call, ◌>>=◌, ◌>>◌}

-- The fields of `struct ihk_perf_event_attr` that the test programs set; the others are zero.
pub record Attr : Type 0 where
  pub config : ℕ
  pub disabled : ℕ
  pub pinned : ℕ
  pub exclude_user : ℕ
  pub exclude_kernel : ℕ
  pub exclude_hv : ℕ
  pub exclude_idle : ℕ

-- The values that `ihk_os_perfctl` is given.
pub data Ctl : Type 0 where
  event_enable event_disable event_destroy : Ctl

pub data Call : Type 0 where
  setperfevent : ℤ → List Attr → ℕ → Call
  perfctl : ℤ → Ctl → Call
  calloc : ℕ → ℕ → Call
  getperfevent : ℤ → ℤ → ℕ → Call
  free : ℤ → Call

-- `config_str` has an entry for each event number from 0x00 to 0x38.
abbrev pub get_config_num : ℕ
get_config_num = 0x39

-- The label `err`: a pointer that is not NULL is freed.
unfoldable pub finish : Env Call ℤ → ℤ → ℤ → Proc Call ℤ
finish env countval ret =
    if is_zero countval then pure ret else call env (free countval) >> pure ret

unfoldable pub perfevent_exec : Env Call ℤ → ℤ → List Attr → ℕ → Proc Call ℤ
unfolding finish
perfevent_exec env os_num attr n = do
  registered ← call env (setperfevent os_num attr n)
  if is_neg registered
      then finish env (pos 0) registered
      else if is_zero registered
      then finish env (pos 0) registered
      else do
        let get_count = pos_part registered
        enabled ← call env (perfctl os_num event_enable)
        if is_neg enabled then finish env (pos 0) enabled else do
          countval ← call env (calloc 8 get_count)
          if is_zero countval then finish env countval enabled else do
            got ← call env (getperfevent os_num countval get_count)
            if is_neg got then finish env countval got else do
              disabled ← call env (perfctl os_num event_disable)
              if is_neg disabled then finish env countval disabled else do
                destroyed ← call env (perfctl os_num event_destroy)
                finish env countval (if is_neg destroyed then destroyed else pos 0)
