-- ===== src/Remap.antt =====
-- test_mck/src/mremap_mmap_anon/mremap_mmap_anon.c: the helpers of the mremap test cases. The
-- mappings are in Remap/Anon.antt, the arguments and the memory checks in Remap/Checks.antt.
pub mod Anon
pub mod Layout
pub mod Checks
pub mod Access
pub mod Cases
mod Tests
