-- ===== src/Server.antt =====
-- The server: server/src/ankaios_server/.
pub mod RequestId
pub mod RequestTexts
pub mod CycleCheck
pub mod DeleteGraph
pub mod DeleteConditions
pub mod Validation
pub mod Render
pub mod ServerState
pub mod LogCampaigns
pub mod Comparator
pub mod Events
pub mod NotStarted
pub mod StateQuery
pub mod NewState
pub mod Differences
pub mod Updates
pub mod Validity
pub mod Tests
pub mod StateTests
pub mod LogTests
pub mod ComparatorTests
pub mod EventTests
pub mod SendingTests
pub mod PreRendering
pub mod Listening
pub mod ListeningTests
