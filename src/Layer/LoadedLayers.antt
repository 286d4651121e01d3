-- ===== src/Layer/LoadedLayers.antt =====
-- A package that is loaded by stages agrees with its layers.
use rototo.Base.{
  Bool, true, false, Option, none, some, Result, ok, err, ◌>>=◌, guard, not, Bytes, ◌≡◌, refl, ◌||◌,
  if◌then◌else◌, arith, codes, text_eq, starts_with,
}
use mathlib.Core.Path.{subst}
use rototo.Toml.{Toml}
use rototo.Layer.Copy.{Sidecar}
use rototo.Layer.Uri.{SourceUri}
use rototo.Layer.Sources.{
  SourceFingerprint, StagedPackage, LoadedPackageSource, SingleError, http_unsupported,
  scheme_unsupported, file_fragment, World,
}
use rototo.Layer.Single.{
  Stages, LocalStageMode, borrow, snapshot, loaded_single_layer, staging_of, is_given,
  snapshot_local_path, stage_file_uri, stage_https_archive, stage_git_repo,
  load_single_package_source, load_single_package_source_snapshot, load_single, world_of, parsed,
  load_file, load_parsed, snapshot_file, snapshot_parsed,
}
use rototo.Layer.Graph.{combined_layer_fingerprint, all_fingerprints, load_package_source}
use rototo.Layer.GraphLoads.{load_package_source-Loads}
use rototo.Layer.GraphLayers.{AgreesWithLayers, all_immutable, Loads-AgreesWithLayers}

unfoldable Yields : Result SingleError LoadedPackageSource → Type 0
Yields (ok loaded) = AgreesWithLayers loaded
Yields (err e) = Unit {0}

Yields-bind :
    {A : Type 0} (first : Result SingleError A) (next : A → Result SingleError LoadedPackageSource)
    → ((a : A) → Yields (next a))
    → Yields (first >>= next)
unfolding Yields
Yields-bind (ok a) next k = k a
Yields-bind (err e) next k = tt

Yields-choice :
    (test : Bool) (r s : Result SingleError LoadedPackageSource)
    → Yields r
    → Yields s
    → Yields (if test then r else s)
Yields-choice true r s h k = h
Yields-choice false r s h k = k

Yields-ok :
    (r : Result SingleError LoadedPackageSource) (loaded : LoadedPackageSource)
    → Yields r
    → r ≡ ok loaded
    → AgreesWithLayers loaded
unfolding Yields
Yields-ok r loaded yields done = subst Yields done yields

loaded_single_layer-AgreesWithLayers :
    (source : Bytes) (staged : StagedPackage) (fingerprint : Option SourceFingerprint)
    (immutable : Bool)
    → AgreesWithLayers (loaded_single_layer source staged fingerprint immutable)
unfolding AgreesWithLayers loaded_single_layer all_immutable combined_layer_fingerprint
    all_fingerprints
loaded_single_layer-AgreesWithLayers source staged none immutable = (ground arith, refl)
loaded_single_layer-AgreesWithLayers source staged (some f) immutable = (ground arith, refl)

module _ (stages : Stages) where
  file-Yields : (source : Bytes) (uri : SourceUri) → Yields (load_file stages source uri)
  unfolding Yields
  file-Yields source uri =
      Yields-bind (stage_file_uri stages uri)
        (λ staged. ok (loaded_single_layer source staged none false))
        (λ staged. loaded_single_layer-AgreesWithLayers source staged none false)

  snapshot_local_path-Yields : (path : Bytes) → Yields (snapshot_local_path stages path)
  unfolding snapshot_local_path Yields
  snapshot_local_path-Yields path =
      Yields-bind (staging_of (stages.copy_dir path)) _
        (λ copied. loaded_single_layer-AgreesWithLayers path _ none false)

  stage_https_archive-Yields :
      (uri : SourceUri) (source : Bytes) → Yields (stage_https_archive stages uri source)
  unfolding stage_https_archive Yields
  stage_https_archive-Yields uri source = Yields-bind _ _ (λ _.
      Yields-bind (staging_of (stages.fetch_archive uri source)) _
        (λ staging. loaded_single_layer-AgreesWithLayers source _ _ _))

  stage_git_repo-Yields :
      (uri : SourceUri) (source : Bytes) → Yields (stage_git_repo stages uri source)
  unfolding stage_git_repo Yields
  stage_git_repo-Yields uri source =
      Yields-bind (staging_of (stages.clone_git uri source)) _
        (λ staging. loaded_single_layer-AgreesWithLayers source _ _ _)

  load_parsed-Yields :
      (source : Bytes) (uri : Option SourceUri) → Yields (load_parsed stages source uri)
  unfolding Yields
  load_parsed-Yields source none = loaded_single_layer-AgreesWithLayers source _ none false
  load_parsed-Yields source (some uri) =
      Yields-choice (text_eq uri.scheme (codes "file")) (load_file stages source uri) _
        (file-Yields source uri)
        (Yields-choice (text_eq uri.scheme (codes "https")) (stage_https_archive stages uri source)
          _ (stage_https_archive-Yields uri source)
          (Yields-choice (text_eq uri.scheme (codes "http")) (err http_unsupported) _ tt (
            Yields-choice (starts_with uri.scheme (codes "git+")) (stage_git_repo stages uri source)
              (err (scheme_unsupported uri.scheme)) (stage_git_repo-Yields uri source) tt)))

  load_single_package_source-Yields :
      (source : Bytes) → Yields (load_single_package_source stages source)
  unfolding load_single_package_source
  load_single_package_source-Yields source =
      Yields-bind (parsed stages source) (load_parsed stages source) (load_parsed-Yields source)

  snapshot_parsed-Yields :
      (source : Bytes) (uri : Option SourceUri) → Yields (snapshot_parsed stages source uri)
  snapshot_parsed-Yields source none = snapshot_local_path-Yields source
  snapshot_parsed-Yields source (some uri) =
      Yields-choice (text_eq uri.scheme (codes "file")) (snapshot_file stages uri)
        (load_single_package_source stages source)
        (Yields-bind (guard (not (is_given uri.reference || is_given uri.subdir)) file_fragment)
          (λ _. snapshot_local_path stages uri.base) (λ _. snapshot_local_path-Yields uri.base))
        (load_single_package_source-Yields source)

  load_single-Yields :
      (mode : LocalStageMode) (source : Bytes) → Yields (load_single stages mode source)
  unfolding load_single load_single_package_source_snapshot
  load_single-Yields borrow source = load_single_package_source-Yields source
  load_single-Yields snapshot source =
      Yields-bind (parsed stages source) (snapshot_parsed stages source)
        (snapshot_parsed-Yields source)

  -- In both stage modes, a package that loads is marked immutable exactly if all its layers are,
  -- and its fingerprint is the one that combines those of its layers.
  pub load_package_source-AgreesWithLayers :
      (T : Toml) (J : Sidecar) (mode : LocalStageMode) (canonicalize : Bytes → Result Bytes Bytes)
      (projection_path : Bytes) (source : Bytes) (out : LoadedPackageSource)
      → load_package_source T J (world_of stages mode canonicalize projection_path) source ≡ ok out
      → AgreesWithLayers out
  load_package_source-AgreesWithLayers T J mode canonicalize projection_path source out done =
      Loads-AgreesWithLayers T J world
        (λ one loaded read.
          Yields-ok (load_single stages mode one) loaded (load_single-Yields mode one) read)
        source none out (load_package_source-Loads T J world source out done)
    where
      world : World
      world = world_of stages mode canonicalize projection_path
