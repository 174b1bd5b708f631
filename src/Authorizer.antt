-- ===== src/Authorizer.antt =====
-- The authorization of control interface requests: agent/src/control_interface/authorizer.rs and
-- the files below agent/src/control_interface/authorizer/.
pub mod Pattern
pub mod Rules
pub mod Service
pub mod PatternMatching
pub mod Coverage
pub mod LogMatching
pub mod RuleSplit
pub mod Decision
pub mod Below
pub mod LogDecision
pub mod Tests
