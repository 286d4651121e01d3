-- ===== src/Layer/Sources.antt =====
-- src/source/types.rs and src/source/layer/graph.rs: the data of a load, what it takes from outside,
-- and its errors.
use rototo.Base.{Bool, List, Option, Result, Bytes}
use rototo.Layer.Files.{Nodes}
use rototo.Layer.Errors.{LayerError}

mutual
  pub data SourceFingerprint : Type 0 where
    git_commit http_validator content_hash : Bytes → SourceFingerprint
    package_layers : Fingerprints → SourceFingerprint

  pub data Fingerprints : Type 0 where
    no_fingerprints : Fingerprints
    and_fingerprint : SourceFingerprint → Fingerprints → Fingerprints

pub record SourceLayer : Type 0 where
  pub source : Bytes
  pub fingerprint : Option SourceFingerprint
  pub immutable : Bool

-- The tree of a staged package is read where the source reads its directory.
pub record StagedPackage : Type 0 where
  pub path : Bytes
  pub tree : Nodes
  pub is_temporary : Bool

pub record LoadedPackageSource : Type 0 where
  pub staged : StagedPackage
  pub fingerprint : Option SourceFingerprint
  pub immutable : Bool
  pub layers : List SourceLayer

pub record ExtendSourceBase : Type 0 where
  pub path : Bytes
  pub temporary : Bool

pub record ResolvedExtendSource : Type 0 where
  pub source : Bytes
  pub inherited_temporary_base : Bool

-- the errors of the load of a single package
pub data SingleError : Type 0 where
  malformed_uri : Bytes → SingleError
  http_unsupported : SingleError
  scheme_unsupported : Bytes → SingleError
  file_fragment archive_ref : SingleError
  staging_failed : Bytes → SingleError

-- What src/source/layer/graph.rs takes from outside: the load of a single package (files, archives, git),
-- `canonicalize`, and the path of the directory that a projection is made in.
pub record World : Type 0 where
  pub load_single : Bytes → Result SingleError LoadedPackageSource
  pub canonicalize : Bytes → Result Bytes Bytes
  pub projection_path : Bytes

pub data GraphError (S : Type 0) : Type 0 where
  depth_exceeded : GraphError S
  cycle_detected : List Bytes → GraphError S
  load_failed : SingleError → GraphError S
  not_canonical : Bytes → Bytes → GraphError S
  source_escapes : Bytes → GraphError S
  relative_escapes : Bytes → GraphError S
  uri_invalid : Bytes → GraphError S
  manifest_unparsable : Bytes → GraphError S
  extends_no_array : GraphError S
  extends_no_string : GraphError S
  extends_blank : GraphError S
  extends_spaced : GraphError S
  layer_failed : LayerError S → GraphError S
  -- of the model alone
  out_of_fuel : GraphError S
