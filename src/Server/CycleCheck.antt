-- ===== src/Server/CycleCheck.antt =====
-- The search for cyclic dependencies: server/src/ankaios_server/cycle_check.rs.
pub mod Graph
pub mod Frames
pub mod Rounds
pub mod Visits
pub mod Soundness
pub mod Ranks
pub mod Termination
pub mod Tests
