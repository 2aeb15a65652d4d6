-- ===== src/Devnet.antt =====
-- The devnet package: profiles, parameters, and the life of a Kurtosis network.
pub mod Images
pub mod Profiles
pub mod Assignment
pub mod Services
pub mod Environment
pub mod Participants
pub mod Manager
pub mod Lifecycle
pub mod Probe
pub mod Advance
pub mod ServiceImage
pub mod Started
pub mod Endings
pub mod Parameters
pub mod Labels
pub mod Starlark
pub mod Completion
pub mod Inspection
pub mod Identities
pub mod ServiceLogs
pub mod LogOutput
pub mod Diagnostics
pub mod Outputs
pub mod Finalized
pub mod Captured
pub mod Network
pub mod Composed
pub mod Missing
mod Tests
mod ServiceTests
mod NetworkTests
mod ComposedTests
