-- ===== src/Api.antt =====
-- The data model that server, agent and command line share: ankaios_api/src/ank_base/.
pub mod Execution
pub mod Instance
pub mod InstanceText
pub mod Workload
pub mod Hysteresis
pub mod StatesMap
pub mod StatesLookup
pub mod StatesHistory
pub mod StatesShape
pub mod Tests
