-- ===== src/Agent.antt =====
-- The agent: agent/src/.
pub mod Dependencies
pub mod Scheduler
pub mod Readiness
pub mod Waiting
pub mod Progress
pub mod Operations
pub mod Requests
pub mod Reuse
pub mod Execution
pub mod StateStore
pub mod Loop
pub mod Retry
pub mod ControlLoop
pub mod Tests
pub mod LoopTests
pub mod RunTests
pub mod ReuseTests
pub mod ExecutionTests
