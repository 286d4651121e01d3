-- ===== src/Layer/Single.antt =====
-- src/source/load.rs: the load of a single package, with what src/source/local.rs, archive.rs and
-- git.rs make of its staged tree. Copies, downloads and clones are fields of `Stages`.
use rototo.Base.{
  Bool, true, false, ◌||◌, [], ◌∷◌, Option, none, some, if◌then◌else◌, Result, ok, err, ◌>>=◌, ◌>>◌,
  guard, not, Bytes, codes, text_eq, starts_with,
}
use rototo.Layer.Files.{Nodes}
use rototo.Layer.Uri.{SourceUri, parse_uri}
use rototo.Layer.Sources.{
  SourceFingerprint, StagedPackage, LoadedPackageSource, SingleError, malformed_uri,
  http_unsupported, scheme_unsupported, file_fragment, archive_ref, staging_failed, World,
}

-- a staged tree with the fingerprint and the mark of its source
pub record Staging : Type 0 where
  pub staged_package : StagedPackage
  pub found_fingerprint : Option SourceFingerprint
  pub pinned : Bool

pub record Stages : Type 0 where
  pub tree_at : Bytes → Nodes
  -- into a new temporary directory: its path and its tree
  pub copy_dir : Bytes → Result Bytes (Bytes × Nodes)
  pub fetch_archive : SourceUri → Bytes → Result Bytes Staging
  pub clone_git : SourceUri → Bytes → Result Bytes Staging

pub data LocalStageMode : Type 0 where
  borrow snapshot : LocalStageMode

unfoldable pub loaded_single_layer :
    Bytes → StagedPackage → Option SourceFingerprint → Bool → LoadedPackageSource
loaded_single_layer source staged fingerprint immutable = record {
  staged = staged;
  fingerprint = fingerprint;
  immutable = immutable;
  layers = record { source = source; fingerprint = fingerprint; immutable = immutable } ∷ [];
}

abbrev pub is_given : Option Bytes → Bool
is_given none = false
is_given (some part) = true

abbrev pub staging_of : {A : Type 0} → Result Bytes A → Result SingleError A
staging_of (ok a) = ok a
staging_of (err e) = err (staging_failed e)

module _ (stages : Stages) where
  abbrev pub stage_local_path : Bytes → StagedPackage
  stage_local_path path = record { path = path; tree = stages.tree_at path; is_temporary = false }

  unfoldable pub snapshot_local_path : Bytes → Result SingleError LoadedPackageSource
  unfolding loaded_single_layer
  snapshot_local_path path = do
    copied ← staging_of (stages.copy_dir path)
    ok (
        loaded_single_layer path (record { path = copied.0; tree = copied.1; is_temporary = true })
          none false)

  unfoldable pub stage_file_uri : SourceUri → Result SingleError StagedPackage
  stage_file_uri uri = do
    guard (not (is_given uri.reference || is_given uri.subdir)) file_fragment
    ok (stage_local_path uri.base)

  unfoldable pub stage_https_archive : SourceUri → Bytes → Result SingleError LoadedPackageSource
  unfolding loaded_single_layer
  stage_https_archive uri original = do
    guard (not (is_given uri.reference)) archive_ref
    staging ← staging_of (stages.fetch_archive uri original)
    ok (loaded_single_layer original staging.staged_package staging.found_fingerprint false)

  unfoldable pub stage_git_repo : SourceUri → Bytes → Result SingleError LoadedPackageSource
  unfolding loaded_single_layer
  stage_git_repo uri original = do
    staging ← staging_of (stages.clone_git uri original)
    ok (
        loaded_single_layer original staging.staged_package staging.found_fingerprint
          staging.pinned)

  abbrev pub parsed : Bytes → Result SingleError (Option SourceUri)
  parsed source = elim (parse_uri source) [ err e ↦ err (malformed_uri e) | ok uri ↦ ok uri ]

  abbrev pub load_file : Bytes → SourceUri → Result SingleError LoadedPackageSource
  load_file source uri = do
    staged ← stage_file_uri uri
    ok (loaded_single_layer source staged none false)

  abbrev pub load_uri : Bytes → SourceUri → Result SingleError LoadedPackageSource
  load_uri source uri =
      if text_eq uri.scheme (codes "file")
      then load_file source uri
      else if text_eq uri.scheme (codes "https")
      then stage_https_archive uri source
      else if text_eq uri.scheme (codes "http")
      then err http_unsupported
      else if starts_with uri.scheme (codes "git+")
      then stage_git_repo uri source
      else err (scheme_unsupported uri.scheme)

  abbrev pub load_parsed : Bytes → Option SourceUri → Result SingleError LoadedPackageSource
  load_parsed source none = ok (loaded_single_layer source (stage_local_path source) none false)
  load_parsed source (some uri) = load_uri source uri

  unfoldable pub load_single_package_source : Bytes → Result SingleError LoadedPackageSource
  unfolding loaded_single_layer stage_file_uri stage_https_archive stage_git_repo
  load_single_package_source source = do uri ← parsed source; load_parsed source uri

  abbrev pub snapshot_file : SourceUri → Result SingleError LoadedPackageSource
  snapshot_file uri = do
    guard (not (is_given uri.reference || is_given uri.subdir)) file_fragment
    snapshot_local_path uri.base

  abbrev pub snapshot_parsed : Bytes → Option SourceUri → Result SingleError LoadedPackageSource
  snapshot_parsed source none = snapshot_local_path source
  snapshot_parsed source (some uri) =
      if text_eq uri.scheme (codes "file")
      then snapshot_file uri
      else load_single_package_source source

  unfoldable pub load_single_package_source_snapshot :
      Bytes → Result SingleError LoadedPackageSource
  unfolding snapshot_local_path load_single_package_source
  load_single_package_source_snapshot source = do uri ← parsed source; snapshot_parsed source uri

  unfoldable pub load_single : LocalStageMode → Bytes → Result SingleError LoadedPackageSource
  unfolding load_single_package_source load_single_package_source_snapshot
  load_single borrow source = load_single_package_source source
  load_single snapshot source = load_single_package_source_snapshot source

  -- where a package is loaded by these stages
  abbrev pub world_of : LocalStageMode → (Bytes → Result Bytes Bytes) → Bytes → World
  world_of mode canonicalize projection_path = record {
    load_single = load_single mode;
    canonicalize = canonicalize;
    projection_path = projection_path;
  }
