-- ===== src/Harness.antt =====
-- test_mck/src/test_mck.c: the program that runs one test case, and its helpers for test cases.
pub mod Number
pub mod Pagemap
pub mod TempFile
pub mod Runner
mod Tests
