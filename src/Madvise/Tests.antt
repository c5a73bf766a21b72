-- ===== src/Madvise/Tests.antt =====
-- A run of test_mck/src/madvise/000.c on a system where all works, and one with an unknown option.
use mckernel_ostest_arm.Base.{◌≡◌, refl, [], ◌∷◌, none, some}
use mckernel_ostest_arm.Base.Int.{pos, negsuc}
use mckernel_ostest_arm.Base.Trace.{Env}
use mckernel_ostest_arm.Madvise.{
  Event, Answer, file, unknown, madvise, madvise_parse_args, parse_opts, run_000, null_pointer,
  advise,
}

abbrev refuses_merging : Env Event Answer
refuses_merging h (madvise addr len flags) = record { ret = negsuc 0; errno = pos 22; st_size = 0 }
refuses_merging h e = record { ret = pos 0; errno = pos 0; st_size = 40960 }

-- The part of 010.c after mmap passes where MADV_MERGEABLE is refused with EINVAL.
mergeable_refused :
    (advise refuses_merging (pos 3) (pos 65536) 40960 (pos 12) (negsuc 0) (pos 22) []).0 ≡ none
unfolding advise
mergeable_refused = refl

unknown_option :
    (run_000 refuses_merging (madvise_parse_args (file 7 ∷ unknown ∷ [])) (pos 10) []).0
    ≡ some null_pointer
unfolding run_000 madvise_parse_args parse_opts
unknown_option = refl
