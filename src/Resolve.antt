-- ===== src/Resolve.antt =====
-- src/resolve.rs: resolution of variables.
pub mod Engine
pub mod Runtime
pub mod Ask
pub mod Hash
pub mod Evaluate
pub mod Trace
pub mod SchemaRef
pub mod SchemaPaths
pub mod Hydrate
pub mod HydrateSchema
pub mod Query
pub mod State
pub mod Fuel
pub mod Plain
pub mod Memo
pub mod Complete
pub mod Answers
pub mod Batch
pub mod Context
pub mod Rules
pub mod Arms
pub mod Allocation
pub mod Fnv
pub mod Shown
pub mod ShownTraces
pub mod KeyOrder
pub mod QuerySort
pub mod QueryItems
pub mod QueryFilter
pub mod QueryResults
pub mod Traced
mod Sample
mod Tests
mod Examples
