-- ===== src/Lib.antt =====
-- rototo is a library for packages of typed configuration: variables, catalogs, lists, layers of traffic
-- and evaluation contexts, kept as files. A package is composed from layers under governance contracts,
-- compiled by the linter into a runtime package, and its variables are resolved against a JSON context.
-- Addresses name the entities in all of these parts.
--
-- Each part is a tree of modules of this library:
-- - Base: texts as lists of bytes with the operations of `str` that the source uses, results with the `?`
--   of Rust as `>>=`, lists measured by native numbers, and maps as lists of items in key order.
-- - Address (src/address.rs): Class is `EntityClass`, Syntax the parser `Address::parse`, its checks and
--   the printer, Reference is `Reference::parse` and `Reference::resolve`. Grammar says what an address is
--   with no reference to the parser; Ids, Steps, Nesting, RoundTrip and Resolve compare the code with it.
-- - Toml: the values of TOML documents, which the packages `toml` parses and prints, with their tables.
-- - Governance (src/source/governance.rs): Glob is the matcher of patterns, Contract has the contracts,
--   `check` and `check_ceiling`, Parse reads a contract. ParsedItems and Parsed compare it with the
--   document. GlobParts and GlobMatches are about the matcher and the meaning of a pattern, Check and
--   Ceiling are about the two checks, and CeilingGaps about the limits of the second.
-- - Layer (src/source/layer): how the files of a layer land on the projection of the layers below. Files
--   has the trees of layers and the maps of projections, Places the patterns on paths, Merge and Members
--   are `deep_merge_toml` and `compose_list_members`; Classify, Updates, ListUpdates and Compose are
--   `compose_package_layer_file`, Copy is `copy_package_layer`, with the sidecar of provenance; Siblings
--   is `SiblingBases::admit`; Declared and Enforce are `enforce_layer_governance_sync` with
--   `check_governed_file`, its stack of directories written as a recursion. MergeLaws, SameValue,
--   MembersLaws have the laws of values; FilesLaws, Edits, Frame and Walk say what a step leaves alone;
--   Markers, MarkerShapes, MarkerPaths, Enforced, Closed, Shapes, ClosedMarkers, Untouched and
--   ClosedProjection are about layers over a projection. Uri is `SourceUri::parse` (src/source/uri.rs),
--   Sources the data of loads (src/source/types.rs), Single the load of one package (src/source/load.rs),
--   with copies, downloads and clones as parameters; Extends and Graph are src/source/layer/graph.rs, and
--   Trees reads a projection as the tree of a layer. GraphStack, Settled, GraphFuel, GraphLandings,
--   GraphLoads, GraphComplete, GraphLayers, LoadedLayers and Escapes have the proofs.
-- - Refresh (src/sdk/refresh.rs): State is `RefreshState` with the start in `load_with_options` and
--   `refresh_once`, Backoff is `failure_backoff`, Steps the states that attempts lead to, Attempts how an
--   attempt ends. What an attempt finds outside, the probes and the load of a package, is an argument.
--   Attempts hold a lock, so that they run one after the other.
-- - Resolve (src/resolve.rs, src/resolve/hydrate.rs, src/expression/eval.rs, and the parts of
--   src/expression/mod.rs, src/lint/runtime.rs and src/model.rs that they use). Engine is the interface to
--   the packages for JSON, JSON Schema and the expression language. Runtime has the data, Evaluate is
--   `cel_evaluate`, Hash the FNV-1a hash, Trace the rules and allocations, SchemaRef, Hydrate and
--   HydrateSchema the entry views, Query the catalog queries, State is `ResolutionState` with the
--   functions that resolve single variables and batches, and Context the validation of a context. Plain is
--   an evaluator with no cache; Fuel, Memo, Complete, Answers, Batch, Shown, Fnv, Rules, Arms, Allocation,
--   ShownTraces, KeyOrder, QuerySort, QueryItems, QueryFilter, QueryResults, Traced and SchemaPaths have
--   the proofs.
--
-- How the code is written down. A text is its list of bytes. An error has a constructor for each message.
-- Code that takes a `&mut dyn RefResolver` is a tree of the type Ask: it gives a result, fails, or asks
-- for the value of a variable. State.run answers what such code asks from a ResolutionState, which is kept
-- beside an error. The session holds what a resolution does not change: the package, the context and the
-- instant `now`. A u64 product is taken modulo 2 ^ 64. A panic is an error of its own.
--
-- Fuel. The recursion over referenced variables has as fuel the number of variables and one more: a chain
-- of references has no variable twice. The recursion of hydration through `$ref` has a depth, a number in
-- the session that stands for the stack of the thread; past it the process ends, which is an error here.
-- The load of a package has as fuel the 32 keys that its stack may hold and one more.
--
-- Files. File names are UTF-8 texts, and a file system holds what was written to it: a failure to read or
-- write a file that is there, links and permissions are not modelled. A projection is dropped behind an
-- error. The path of a layer or of a projection is a directory, a manifest is UTF-8, and two paths are the
-- same when their texts are. A refusal of an entry or a field names that one, without the kind and the id.
--
-- Not modelled: the compilation of a package by the linter, the functions that expressions call (their run
-- is a part of the interface Engine), the staging of packages from files, archives and git, the timer of
-- the refresh loop, the command line, the language server, the editing of packages and the bindings for
-- other languages.
pub mod Base
pub mod Address
pub mod Governance
pub mod Layer
pub mod Refresh
pub mod Resolve
pub mod Toml
