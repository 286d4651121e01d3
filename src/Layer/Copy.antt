-- ===== src/Layer/Copy.antt =====
-- src/source/layer/compose.rs: a whole layer lands on a projection. A layer's entries come in the
-- order of their names.
use rototo.Base.{
  Bool, false, ◌&&◌, ◌||◌, not, [], ◌∷◌, Option, none, some, if◌then◌else◌, Result, ok, err, ◌>>=◌,
  Bytes, codes, text_eq, is_empty, Map, assign,
}
use rototo.Toml.{Toml}
use rototo.Layer.Files.{
  FilePath, Node, Nodes, contents, directory, special, no_nodes, node, layer_file, file, folder,
  Files, file_at, is_folder, put, remove_folder,
}
use rototo.Layer.Errors.{LayerError, unsupported_entry, unprintable}
use rototo.Layer.Landing.{Contributor, Landing, beside, Landed}
use rototo.Layer.Places.{manifest_name}
use rototo.Layer.Compose.{compose_package_layer_file}
use rototo.Layer.Siblings.{admit}

abbrev pub provenance_name : Bytes
provenance_name = codes ".rototo-provenance.json"

-- `create_dir_all`, behind the removal of a file that is there
unfoldable pub make_folder : FilePath → Landing → Landing
make_folder path s =
    if is_folder s.files path then s else record s { files = put s.files path folder }

-- the removal of a directory that is where a file lands
unfoldable pub clear_folder : FilePath → Landing → Landing
clear_folder path s =
    if is_folder s.files path then record s { files = remove_folder s.files path } else s

-- at the root the manifest is skipped on demand, and the sidecar always
abbrev pub is_left_out : Bool → FilePath → Bytes → Bool
is_left_out include_manifest relative name =
    is_empty relative
    && ((not include_manifest && text_eq name manifest_name) || text_eq name provenance_name)

-- What does not change while a layer is copied: `siblings` is whether the layer is one of several
-- bases.
pub record Copying : Type 0 where
  pub who : Contributor
  pub layer : Nodes
  pub include_manifest : Bool
  pub siblings : Bool

module _ (T : Toml) where
  abbrev pub admitted :
      Copying → Landing → FilePath → Bytes → Result (LayerError T.Scalar) (Bool × Landing)
  admitted c s relative text = if c.siblings then admit c.who s relative text else ok (false, s)

  unfoldable pub land_file : Copying → FilePath → Bytes → Bytes → Landing → Landed T
  unfolding clear_folder admit compose_package_layer_file
  land_file c dirs name text s = do
    (skip, claimed) ← admitted c (clear_folder (beside dirs name) s) (beside dirs name) text
    if skip then ok claimed else compose_package_layer_file T c.who c.layer claimed dirs name text

  unfoldable mutual
    unfolding land_file make_folder

    -- the loop over the entries of the directory at `relative`
    pub copy_entries : Copying → FilePath → Nodes → Landing → Landed T
    copy_entries c relative no_nodes s = ok s
    copy_entries c relative (node name entry nodes) s = do
      landed ←
          if is_left_out c.include_manifest relative name
          then ok s
          else copy_entry c relative name entry s
      copy_entries c relative nodes landed

    pub copy_entry : Copying → FilePath → Bytes → Node → Landing → Landed T
    copy_entry c relative name (contents text) s = land_file c relative name text s
    copy_entry c relative name (directory nodes) s =
        copy_entries c (beside relative name) nodes (make_folder (beside relative name) s)
    copy_entry c relative name special s = err (unsupported_entry (beside relative name))

  -- `copy_package_layer_recursive` from the root
  abbrev pub copy_package_layer_recursive : Copying → Landing → Landed T
  copy_package_layer_recursive c s = copy_entries c [] c.layer (make_folder [] s)

-- The sidecar is JSON: what the source takes from `serde_json` for a map of labels.
pub record Sidecar : Type 0 where
  pub parse_labels : Bytes → Option (Map Bytes)
  pub print_labels : Map Bytes → Result Bytes Bytes

module _ (T : Toml) (J : Sidecar) where
  unfoldable pub read_provenance : Option Bytes → Map Bytes
  read_provenance none = []
  read_provenance (some text) = elim (J.parse_labels text) [ none ↦ [] | some labels ↦ labels ]

  -- `merged.extend(provenance)`
  unfoldable pub extend : Map Bytes → Map Bytes → Map Bytes
  extend labels [] = labels
  extend labels ((id, label) ∷ more) = extend (assign labels id label) more

  unfoldable pub write_provenance : Landing → Map Bytes → Landed T
  write_provenance s labels = elim (J.print_labels labels) [
    | err message ↦ err (unprintable message)
    | ok text ↦ ok (record s { files = put s.files (provenance_name ∷ []) (file text) })
  ]

  -- what the layer recorded goes to the sidecar, over what stands there
  unfoldable pub add_provenance : Landing → Landed T
  unfolding extend write_provenance read_provenance
  add_provenance landed =
      let merged =
        extend (read_provenance (file_at landed.files (provenance_name ∷ []))) landed.recorded in
      if is_empty landed.recorded then ok landed else write_provenance landed merged

  abbrev pub contributor : Nodes → Bytes → Contributor
  contributor layer label = record {
    label = label;
    nested = read_provenance (layer_file layer (provenance_name ∷ []));
  }

  abbrev pub copying : Nodes → Bool → Bytes → Bool → Copying
  copying layer include_manifest label siblings = record {
    who = contributor layer label;
    layer = layer;
    include_manifest = include_manifest;
    siblings = siblings;
  }

  unfoldable pub copy_package_layer : Nodes → Bool → Bytes → Bool → Files → Map Bytes → Landed T
  unfolding copy_entries read_provenance add_provenance
  copy_package_layer layer include_manifest label siblings files provided = do
    landed ←
        copy_package_layer_recursive T (copying layer include_manifest label siblings)
          (record { files = files; recorded = []; provided = provided })
    add_provenance landed
