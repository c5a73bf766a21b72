-- ===== src/Ptrace.antt =====
-- test_mck/src/arch/arm64/arch_test_ptrace.c: the register checks of the ptrace test cases.
pub mod Calls
pub mod Regset
pub mod Debug
pub mod Tracee
pub mod Magic
pub mod Control
pub mod Inspect
mod Tests
