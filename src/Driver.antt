-- ===== src/Driver.antt =====
-- The test driver, test_drv: a kernel module with three character devices and two files in procfs.
pub mod Calls
pub mod Suites
pub mod ProcRead
pub mod Setup
mod Tests
