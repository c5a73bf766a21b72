-- ===== src/Lib.antt =====
-- The McKernel OS tests for arm64: the measuring programs, the test driver, the harness test_mck
-- and the helper libraries of its test cases, with what makes each of them correct.
--
-- Code outside the repository (the C library, the kernel, ihklib, ptrace) is an environment: it
-- answers each call from the calls made before it, and the theorems range over all environments. A
-- procedure extends the history of calls (Base/Trace). What a theorem needs of that code is a named
-- hypothesis that states documented behaviour: AsprintfStores, HonoursFixed, Fits, Located,
-- GetPlaced, SetPlaced, Working, HasPolicy, Registers, Signals.
--
-- Base: the names that all modules share. Tests has the Boolean tests on native numbers, Lists the
-- list functions, Int the C integers that may be negative, Trace the environments and procedures.
--
-- Perf: cpu_pa_info/src. Perf.antt is perfevent_exec of common.c, with get_config_num, and
-- Perf/Cases the test functions of 000.c to 005.c. Perf/Protocol is about what one cycle leaves
-- behind, and Perf/Sequence about what the loops of the test cases measure.
--
-- Dispatch: the main function that cpu_pa_info/src/main.c and condition_monitor/src/main.c share.
-- The table that test_case.list generates is a parameter. Dispatch/Choice is about which entry is
-- run.
--
-- Monitor: condition_monitor/src. Monitor.antt is get_status and event_polling of common.c and the
-- tests 000.c to 002.c. The endless wait runs on fuel, one unit for each wait, so that it needs one
-- more than the waits that report something else. Monitor/Polling is about its end.
--
-- Driver: the kernel module test_drv. Driver/Calls has the kernel functions and struct
-- test_mck_dev, Driver/Suites the devices (test_mck_drv-mmap_dev.c, -mmap_dev2.c and
-- -writecombine.c), Driver/Setup test_mck_setup and test_mck_cleanup of test_mck_drv.c with the
-- procfs files, and Driver/ProcRead test_mck_procfs_string_read. The loop of the buffer reset has
-- fuel for page_size / 8 + 2 rounds, and the buffer has page_size / 8 + 1 pages. The page size is a
-- parameter.
--
-- Harness: test_mck/src/test_mck.c. Harness/Runner is the option loop, the search of the test table
-- and main, Harness/TempFile the temporary files, Harness/Number test_mck_strtoul and the alignment
-- macros of test_mck.h, and Harness/Pagemap __get_memory_info, with pages of 2^12 bytes.
--
-- Numa: test_mck/src/numa.c, the node masks and the memory policies of regions. A shift that C
-- leaves undefined is a result of its own. Numa/Masks is about the masks that are accepted, and
-- Numa/Policy about the policies, for which HasPolicy says that get_mempolicy reports a map.
--
-- Mempolicy: the test cases of test_mck/src/mbind, set_mempolicy and get_mempolicy, which call numa.c. A
-- case is a sequence of statements of a few kinds, the data type Step, and what its TEARDOWN_FUNC
-- gives back; Mempolicy/Run runs it up to the first assert that fails. Bind, Assign and Fetch have the
-- cases of the three folders by the file's number, with the page size, the number of nodes and the
-- address of the array on the stack as parameters. Regions has the cases 015.c to 023.c of mbind, which
-- share a RUN_FUNC of their own and differ in two tables. Regions/Painted and Regions/Passes are about
-- the policies that the pages have after them. Interleave is get_mempolicy/018.c, with a loop of its
-- own, and Interleave/Released about the ranges that it reserves. Ownership and Balance are about the
-- masks. Documented has what Linux says of the calls, Sound a check of the asserts against it, and
-- Sound/Cases is about the cases that stand this check.
--
-- Rlimit: the test cases of test_mck/src/setrlimit and getrlimit. Set has the RUN_FUNC that 000.c to
-- 014.c of setrlimit share, from run_set on, with a resource and a limit for each file, and 015.c; Get
-- has the RUN_FUNC of getrlimit with a record for each file and the loop of 017.c. Kernel is the manual
-- page as a relation between the limits after the calls so far and an answer, for a process that may
-- raise its limits. Restored is about setrlimit, Verdicts about getrlimit.
--
-- Affinity: the test cases 000.c to 006.c of test_mck/src/sched_setaffinity. Cases has their RUN_FUNCs, a
-- set of CPUs being the numbers that were put in it. The search for an unused process number in 006.c
-- is structural on the ints that are left. Released is about CPU_ALLOC and CPU_FREE, Moved about
-- a system that moves the process only when its set makes it.
--
-- Madvise: test_mck/src/madvise/madvise.c and 000.c, which 001.c to 015.c alias. Madvise/Closed is about
-- the file and the range that a run uses.
--
-- CopyOnWrite: lv11_copy_on_write/main.c, which writes a string to a mapped file or reads it. The
-- model has the bits of the protection and of the flags one by one. CopyOnWrite/Release is about
-- what a run leaves open and what it writes.
--
-- LargePages: lv14_large_pages/main.c, which maps, touches and unmaps large ranges, with the
-- constants of main.h. The loop is a recursion on the rounds that are left. LargePages/Access is
-- about the bytes that it touches and the ranges that it maps.
--
-- Remap: test_mck/src/mremap_mmap_anon/mremap_mmap_anon.c. Remap/Anon reserves a range and lays out
-- its parts, Remap/Checks has the arguments and the memory checks. Remap/Layout and Remap/Access
-- are about them. Remap/Cases has the test cases 000.c to 316.c of the same folder: what differs
-- from one RUN_FUNC to the next is a record, and run_case is the RUN_FUNC that they have in common.
-- Its children Private, Shared, LargePrivate and LargeShared have the records by the file's number,
-- with the two page sizes as parameters; Addresses is about where the elements of a case are laid out,
-- and Sound about what the cases expect, by what mremap(2) documents.
--
-- Ptrace: test_mck/src/arch/arm64/arch_test_ptrace.c. Ptrace/Calls has the requests and register
-- sets, Ptrace/Regset the checks of the register sets, Ptrace/Debug the watchpoints and
-- breakpoints, and Ptrace/Tracee what ptrace documents: a child whose registers read as they were
-- last written. Magic, Control and Inspect are about the three groups of functions.
--
-- PtraceCases: the test cases 000.c to 021.c of test_mck/src/ptrace, which call these functions.
-- PtraceCases/Events has the calls of the two processes, and what the macros of sys/wait.h say of a
-- status, PtraceCases/Flow what the cases share: the labels `cont` and `out` as values, the wait
-- for a stop, the start of a child, and RUN_FUNC. Memory, Requests, Traps, Stepping, Messages,
-- Attach and Device are the cases, with child_func, parent_func and RUN_FUNC of each file by its
-- number, and body_NNN for what parent_func does between rewrite_brk_inst and its labels. Parent
-- and child are modelled one by one: the variables of a case are addresses, and what a process
-- reads there is an answer of the environment. PtraceCases/Life has the rules of ptrace as a step
-- relation on what the parent knows of its child, and PtraceCases/Verdict what a return of 0 tells.
-- World is a child to try the cases on. The loop of 017.c is a recursion on the rounds that are
-- left.
--
-- The tests and the examples of a component stand in its module Tests.
--
-- Not modelled: printing, inline assembly, the shell and awk scripts, the other test cases of
-- test_mck/src, and the programs lv07, lv09, lv12 and lv15, socket_TP, freeze_thaw and hello_world.
-- Integers of a fixed width keep their wrap-around where the code computes with them; counts and
-- sizes that only pass through are unbounded numbers.
pub mod Affinity
pub mod Base
pub mod CopyOnWrite
pub mod Dispatch
pub mod Driver
pub mod Harness
pub mod LargePages
pub mod Madvise
pub mod Mempolicy
pub mod Monitor
pub mod Numa
pub mod Perf
pub mod Ptrace
pub mod PtraceCases
pub mod Remap
pub mod Rlimit
