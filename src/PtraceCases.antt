-- ===== src/PtraceCases.antt =====
-- test_mck/src/ptrace: the test cases of ptrace, each a parent that traces its child.
pub mod Events
pub mod Flow
pub mod Memory
pub mod Requests
pub mod Traps
pub mod Stepping
pub mod Attach
pub mod Device
pub mod Messages
pub mod Life
pub mod Verdict
mod World
mod Tests
