-- ===== src/Governance.antt =====
-- src/source/governance.rs: the layering contract.
pub mod Glob
mod GlobParts
pub mod GlobMatches
pub mod Contract
pub mod Parse
pub mod ParsedItems
pub mod Parsed
pub mod Check
pub mod Ceiling
pub mod CeilingGaps
mod Tests
