-- ===== src/Mempolicy/Constants.antt =====
-- The constants of numaif.h, errno.h and test_mck/src/numa.h that the test cases use.
use mckernel_ostest_arm.Base.{ℕ, ◌^◌}

abbrev pub mpol_default : ℕ
mpol_default = 0

abbrev pub mpol_preferred : ℕ
mpol_preferred = 1

abbrev pub mpol_bind : ℕ
mpol_bind = 2

abbrev pub mpol_interleave : ℕ
mpol_interleave = 3

-- MPOL_DEFAULT | MPOL_BIND | MPOL_INTERLEAVE | MPOL_PREFERRED
abbrev pub all_modes : ℕ
all_modes = 3

abbrev pub mpol_f_static_nodes : ℕ
mpol_f_static_nodes = 2 ^ 15

abbrev pub mpol_f_relative_nodes : ℕ
mpol_f_relative_nodes = 2 ^ 14

abbrev pub mpol_f_node : ℕ
mpol_f_node = 1

abbrev pub mpol_f_addr : ℕ
mpol_f_addr = 2

abbrev pub mpol_f_mems_allowed : ℕ
mpol_f_mems_allowed = 4

abbrev pub mpol_mf_strict : ℕ
mpol_mf_strict = 1

abbrev pub mpol_mf_move : ℕ
mpol_mf_move = 2

abbrev pub mpol_mf_move_all : ℕ
mpol_mf_move_all = 4

abbrev pub eperm : ℕ
eperm = 1

abbrev pub eio : ℕ
eio = 5

abbrev pub efault : ℕ
efault = 14

abbrev pub einval : ℕ
einval = 22
