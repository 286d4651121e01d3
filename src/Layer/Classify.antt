-- ===== src/Layer/Classify.antt =====
-- `LayerFileComposition` and `classify_layer_file` of src/source/layer/compose.rs.
use rototo.Base.{Bool, ◌&&◌, ◌∷◌, none, some, if◌then◌else◌, Bytes, strip_suffix, ends_with}
use rototo.Layer.Files.{FilePath}
use rototo.Layer.Places.{
  Place, place, in_entries, in_variables, in_lists, toml_suffix, update_suffix, deleted_suffix,
}

pub data LayerFileComposition : Type 0 where
  replace_whole : LayerFileComposition
  catalog_entry_deleted : Bytes → LayerFileComposition
  catalog_entry_update : Bytes → LayerFileComposition
  variable_update variable_restate : LayerFileComposition
  list_update list_restate : LayerFileComposition

unfoldable pub classify_entry : Bytes → LayerFileComposition
classify_entry name = elim (strip_suffix name deleted_suffix) [
  | some entry ↦ catalog_entry_deleted entry
  | none ↦ elim (strip_suffix name update_suffix) [
    | some entry ↦ catalog_entry_update entry
    | none ↦ replace_whole
  ]
]

abbrev pub classify_marked :
    Bytes → Bool → LayerFileComposition → LayerFileComposition → LayerFileComposition
classify_marked name target_exists updated restated =
    if ends_with name update_suffix
    then updated
    else if target_exists && ends_with name toml_suffix
    then restated
    else replace_whole

unfoldable pub classify_at : Place → Bytes → Bool → LayerFileComposition
unfolding classify_entry
classify_at (in_entries middle last) name target_exists = classify_entry name
classify_at (in_variables (next ∷ rest)) name target_exists =
    classify_marked name target_exists variable_update variable_restate
classify_at (in_lists (next ∷ rest)) name target_exists =
    classify_marked name target_exists list_update list_restate
classify_at _ name target_exists = replace_whole

unfoldable pub classify_layer_file : FilePath → Bytes → Bool → LayerFileComposition
unfolding place classify_at
classify_layer_file relative name target_exists = classify_at (place relative) name target_exists
