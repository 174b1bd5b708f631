-- ===== src/Common.antt =====
-- What server and agent share: common/src/.
pub mod MessageSize
pub mod Truncation
pub mod Splitting
pub mod Yaml
pub mod RequestPrefix
pub mod Path
pub mod Object
pub mod Wildcards
pub mod Sample
pub mod Tests
pub mod ObjectTests
