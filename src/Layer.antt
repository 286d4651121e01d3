-- ===== src/Layer.antt =====
-- src/source/layer: the composition of a package from its layers.
pub mod Merge
pub mod MergeLaws
pub mod Files
pub mod Errors
pub mod Members
pub mod SameValue
pub mod MembersLaws
pub mod Places
pub mod Classify
pub mod Landing
pub mod Updates
pub mod ListUpdates
pub mod Compose
pub mod Siblings
pub mod Copy
pub mod Declared
pub mod Enforce
pub mod FilesLaws
pub mod Edits
pub mod Frame
pub mod Walk
pub mod Markers
pub mod MarkerShapes
pub mod MarkerPaths
pub mod Enforced
pub mod Shapes
pub mod Closed
pub mod ClosedMarkers
pub mod Untouched
pub mod ClosedProjection
pub mod Uri
pub mod Sources
pub mod Single
pub mod Extends
pub mod Trees
pub mod Graph
pub mod GraphStack
pub mod Settled
pub mod GraphFuel
pub mod GraphLandings
pub mod GraphLoads
pub mod GraphComplete
pub mod GraphLayers
pub mod LoadedLayers
pub mod Escapes
mod GraphTests
mod Tests
