-- ===== src/Layer/Graph.antt =====
-- src/source/layer/graph.rs: a package and the packages that it extends, composed depth first. The
-- stack of the keys on the way is passed through, and kept beside an error. The recursion has a fuel.
use rototo.Base.{
  Bool, true, false, ◌&&◌, ◌||◌, not, List, [], ◌∷◌, ◌++◌, Option, none, some, if◌then◌else◌,
  Result, ok, err, ◌>>=◌, ◌>>◌, ℕ, zero, suc, leb, length, Bytes, codes, text_eq, Map,
}
use rototo.Toml.{Toml}
use rototo.Layer.Files.{Nodes, Files}
use rototo.Layer.Errors.{LayerError}
use rototo.Layer.Landing.{Landing}
use rototo.Layer.Copy.{Sidecar, copy_package_layer}
use rototo.Layer.Enforce.{enforce_layer_governance}
use rototo.Layer.Trees.{tree_of}
use rototo.Layer.Sources.{
  SourceFingerprint, package_layers, Fingerprints, no_fingerprints, and_fingerprint, SourceLayer,
  LoadedPackageSource, ExtendSourceBase, World, SingleError, GraphError, depth_exceeded,
  cycle_detected, load_failed, layer_failed, out_of_fuel,
}
use rototo.Layer.Extends.{
  is_blank, read_package_extends, resolve_extend_source, package_source_key,
  extend_source_base_path,
}

abbrev pub max_package_extends_depth : ℕ
max_package_extends_depth = 32

unfoldable pub push_key : List Bytes → Bytes → List Bytes
push_key [] key = key ∷ []
push_key (k ∷ stack) key = k ∷ push_key stack key

-- `stack.pop()`
unfoldable pub pop_key : List Bytes → List Bytes
pop_key [] = []
pop_key (k ∷ []) = []
pop_key (k ∷ next ∷ stack) = k ∷ pop_key (next ∷ stack)

-- the keys from the first that is the given one
unfoldable pub cycle_from : Bytes → List Bytes → Option (List Bytes)
cycle_from key [] = none
cycle_from key (k ∷ stack) = if text_eq k key then some (k ∷ stack) else cycle_from key stack

abbrev pub last_source : List SourceLayer → Bytes
last_source [] = codes "package"
last_source (layer ∷ []) = layer.source
last_source (layer ∷ next ∷ layers) = last_source (next ∷ layers)

unfoldable pub layer_label : LoadedPackageSource → Bytes → Bytes
unfolding is_blank
layer_label loaded written_source =
    if not (is_blank (length written_source) written_source)
    then written_source
    else last_source loaded.layers

unfoldable pub all_fingerprints : List SourceLayer → Option Fingerprints
all_fingerprints [] = some no_fingerprints
all_fingerprints (layer ∷ layers) = elim layer.fingerprint [
  | none ↦ none
  | some first ↦ elim (all_fingerprints layers) [
    | none ↦ none
    | some rest ↦ some (and_fingerprint first rest)
  ]
]

abbrev pub combined : Fingerprints → Option SourceFingerprint
combined no_fingerprints = none
combined (and_fingerprint one no_fingerprints) = some one
combined (and_fingerprint one (and_fingerprint two rest)) =
    some (package_layers (and_fingerprint one (and_fingerprint two rest)))

unfoldable pub combined_layer_fingerprint : List SourceLayer → Option SourceFingerprint
unfolding all_fingerprints
combined_layer_fingerprint layers = elim (all_fingerprints layers) [
  | none ↦ none
  | some fingerprints ↦ combined fingerprints
]

-- what the loop over the bases keeps
pub record Gathered : Type 0 where
  pub files : Files
  pub provided : Map Bytes
  pub layers : List SourceLayer
  pub immutable : Bool

abbrev pub nothing_gathered : Gathered
nothing_gathered = record { files = []; provided = []; layers = []; immutable = true }

pub record Found : Type 0 where
  pub loaded : LoadedPackageSource
  pub inherited : Bool
  pub key : Bytes

module _ (T : Toml) (J : Sidecar) (world : World) where
  abbrev pub Outcome : Type 0 → Type 0
  Outcome A = Result (GraphError T.Scalar) A

  abbrev pub Load : Type 0
  Load = Bytes → Option ExtendSourceBase → List Bytes → Outcome LoadedPackageSource × List Bytes

  abbrev pub in_layer : {A : Type 0} → Result (LayerError T.Scalar) A → Outcome A
  in_layer (ok a) = ok a
  in_layer (err e) = err (layer_failed e)

  abbrev pub gathered_with : Gathered → LoadedPackageSource → Landing → Gathered
  gathered_with g parent landed = record {
    files = landed.files;
    provided = landed.provided;
    layers = g.layers ++ parent.layers;
    immutable = g.immutable && parent.immutable;
  }

  -- a base lands beside those before it
  unfoldable pub land_base : Gathered → Bytes → LoadedPackageSource → Outcome Gathered
  unfolding copy_package_layer layer_label
  land_base g source parent = do
    landed ← in_layer (
        copy_package_layer T J parent.staged.tree false (layer_label parent source) true g.files
          g.provided)
    ok (gathered_with g parent landed)

  -- the loop over `extends`
  unfoldable pub load_bases :
      Load → ExtendSourceBase → List Bytes → Gathered → List Bytes → Outcome Gathered × List Bytes
  unfolding land_base
  load_bases load base [] g stack = (ok g, stack)
  load_bases load base (source ∷ sources) g stack =
      let (loaded, after) = load source (some base) stack in
      elim (loaded >>= land_base g source) [
        | err e ↦ (err e, after)
        | ok next ↦ load_bases load base sources next after
      ]

  abbrev pub projected : LoadedPackageSource → Gathered → Nodes → LoadedPackageSource
  projected loaded g tree = record {
    staged = record { path = world.projection_path; tree = tree; is_temporary = true };
    fingerprint = combined_layer_fingerprint (g.layers ++ loaded.layers);
    immutable = g.immutable && loaded.immutable;
    layers = g.layers ++ loaded.layers;
  }

  -- the package itself lands on its bases, whose contract it has to keep
  unfoldable pub land_child : LoadedPackageSource → Gathered → Outcome LoadedPackageSource
  unfolding enforce_layer_governance copy_package_layer combined_layer_fingerprint tree_of
  land_child loaded g = do
    in_layer (enforce_layer_governance T loaded.staged.tree g.files)
    landed ← in_layer (
        copy_package_layer T J loaded.staged.tree true (last_source loaded.layers) false g.files [])
    ok (projected loaded g (tree_of landed.files))

  abbrev pub base_of : LoadedPackageSource → Bool → ExtendSourceBase
  base_of loaded inherited = record {
    path = extend_source_base_path T loaded;
    temporary =
        inherited
        || (loaded.staged.is_temporary
            && text_eq (extend_source_base_path T loaded) loaded.staged.path);
  }

  unfoldable pub project_package_source_graph :
      Load → LoadedPackageSource → Bool → List Bytes → Outcome LoadedPackageSource × List Bytes
  unfolding read_package_extends extend_source_base_path load_bases land_child
  project_package_source_graph load loaded inherited stack =
      elim (read_package_extends T loaded.staged.tree) [
        | err e ↦ (err e, stack)
        | ok [] ↦ (ok loaded, stack)
        | ok (source ∷ sources) ↦
            let (gathered, after) =
              load_bases load (base_of loaded inherited) (source ∷ sources) nothing_gathered
                stack in
            (gathered >>= land_child loaded, after)
      ]

  abbrev pub of_single : Result SingleError LoadedPackageSource → Outcome LoadedPackageSource
  of_single (ok loaded) = ok loaded
  of_single (err e) = err (load_failed e)

  abbrev pub single_source : Bytes → Outcome LoadedPackageSource
  single_source source = of_single (world.load_single source)

  -- one source, with the key that stands for it on the stack
  unfoldable pub find_source : Bytes → Option ExtendSourceBase → Outcome Found
  unfolding resolve_extend_source package_source_key
  find_source source base = do
    resolved ← resolve_extend_source T source base
    loaded ← single_source resolved.source
    key ← package_source_key T world resolved.source loaded.staged
    ok (record { loaded = loaded; inherited = resolved.inherited_temporary_base; key = key })

  unfoldable pub load_package_source_graph : ℕ → Load
  unfolding find_source cycle_from push_key pop_key project_package_source_graph
  load_package_source_graph zero source base stack = (err out_of_fuel, stack)
  load_package_source_graph (suc fuel) source base stack =
      elim (leb max_package_extends_depth (length stack)) [
        | true ↦ (err depth_exceeded, stack)
        | false ↦ elim (find_source source base) [
          | err e ↦ (err e, stack)
          | ok found ↦ elim (cycle_from found.key stack) [
            | some cycle ↦ (err (cycle_detected (push_key cycle found.key)), stack)
            | none ↦
                let (result, after) =
                  project_package_source_graph (load_package_source_graph fuel) found.loaded
                    found.inherited (push_key stack found.key) in
                (result, pop_key after)
          ]
        ]
      ]

  -- `load_package_source`, from an empty stack
  unfoldable pub load_package_source : Bytes → Outcome LoadedPackageSource
  unfolding load_package_source_graph
  load_package_source source =
      (load_package_source_graph (suc max_package_extends_depth) source none []).0
