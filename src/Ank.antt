-- ===== src/Ank.antt =====
-- The command line: ank/src/.
pub mod WaitList
pub mod Waits
pub mod Tests
