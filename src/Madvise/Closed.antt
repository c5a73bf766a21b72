-- ===== src/Madvise/Closed.antt =====
-- The file and the range that the madvise cases use.
use mckernel_ostest_arm.Base.{ℕ, ◌+◌, ◌*◌, ◌≤◌, List, Option, none, some, if◌then◌else◌}
use mckernel_ostest_arm.Base.Int.{is_minus_one}
use mckernel_ostest_arm.Base.Trace.{Env, total_gain, total_loss}
use mckernel_ostest_arm.Madvise.{Event, Answer, Message, open_file, write, mmap, munmap, close}

abbrev pub opened : Event → Answer → ℕ
opened (open_file path) a = if is_minus_one a.ret then 0 else 1
opened e a = 0

abbrev pub closed : Event → ℕ
closed (close fd) = 1
closed e = 0

abbrev pub mapped : Event → Answer → ℕ
mapped (mmap len fd) a = if is_minus_one a.ret then 0 else 1
mapped e a = 0

abbrev pub unmapped : Event → ℕ
unmapped (munmap addr len) = 1
unmapped e = 0

-- A write that has not failed, whether or not it was short.
abbrev pub accepted : Event → Answer → ℕ
accepted (write fd len) a = if is_minus_one a.ret then 0 else 1
accepted e a = 0

abbrev pub tail : Option Message → ℕ
tail none = 0
tail (some m) = 1

-- Of what a run from `h` has, it leaves at most one file and one range, and none if it passes; `files`
-- have been opened before it and `writes` are still to be made.
abbrev pub Closes :
    Env Event Answer → List Event → (files writes : ℕ) → Option Message × List Event → Type 0
Closes env h files writes (m, h') =
    ((total_loss closed h' + total_gain opened env h
        ≤ total_gain opened env h' + total_loss closed h + files)
      × (total_gain opened env h' + total_loss closed h + files
          ≤ total_loss closed h' + total_gain opened env h + tail m))
    × (((total_loss unmapped h' + total_gain mapped env h
            ≤ total_gain mapped env h' + total_loss unmapped h)
          × (total_gain mapped env h' + total_loss unmapped h
              ≤ total_loss unmapped h' + total_gain mapped env h + tail m))
        × ((total_gain accepted env h' ≤ total_gain accepted env h + writes)
            × (total_gain accepted env h + writes ≤ total_gain accepted env h' + writes * tail m)))
