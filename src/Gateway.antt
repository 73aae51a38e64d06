-- ===== src/Gateway.antt =====
-- The application services of the Gateway. An operation is an action over the Gateway's state that
-- returns or raises; its writes stay until the transaction around a public operation is rolled back.
pub mod World
pub mod Effects
pub mod Returns
pub mod Releases
pub mod Publishes
pub mod Operations
pub mod Authority
pub mod Closing
pub mod ReviewCheck
pub mod ReleaseChecks
pub mod ReleaseGate
pub mod Service
pub mod Creation
pub mod Decisions
pub mod Editing
pub mod Approval
pub mod Preparation
pub mod Validated
pub mod Review
pub mod GovernedApproval
pub mod Reconciliation
pub mod Publication
pub mod Replay
pub mod ReplayOnce
mod Fixtures
mod Tests
mod PreparationTests
