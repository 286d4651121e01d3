-- ===== src/Layer/Places.antt =====
-- The patterns on the components of a path that src/source/layer matches on, and the ids that paths
-- name. A path stands in one place at most, since its first names tell the places apart.
use rototo.Base.{
  ◌&&◌, not, [], ◌∷◌, ◌++◌, Option, none, some, if◌then◌else◌, Bytes, codes, text_eq, strip_suffix,
  ends_with, join, is_empty,
}
use rototo.Layer.Files.{FilePath, below}

abbrev pub slash : Bytes
slash = codes "/"

abbrev pub toml_suffix : Bytes
toml_suffix = codes ".toml"

abbrev pub update_suffix : Bytes
update_suffix = codes ".update.toml"

abbrev pub deleted_suffix : Bytes
deleted_suffix = codes ".deleted.toml"

abbrev pub schema_suffix : Bytes
schema_suffix = codes ".schema.json"

abbrev pub manifest_name : Bytes
manifest_name = codes "rototo-package.toml"

abbrev pub governance_name : Bytes
governance_name = codes "governance.toml"

-- `[dirs @ .., file]`
unfoldable pub split_last : FilePath → Option (FilePath × Bytes)
split_last [] = none
split_last (name ∷ []) = some ([], name)
split_last (name ∷ next ∷ path) = elim (split_last (next ∷ path)) [
  | none ↦ none
  | some (dirs, file) ↦ some (name ∷ dirs, file)
]

pub data Place : Type 0 where
  -- `["model", "catalogs", ..]`, with what is behind the names
  in_catalogs : FilePath → Place
  -- `["model", "context", ..]`
  in_context : FilePath → Place
  -- `["data", "catalogs", middle @ .., file]` with a middle that is not empty
  in_entries : FilePath → Bytes → Place
  -- `["lists", ..]`
  in_lists : FilePath → Place
  -- `["variables", ..]`
  in_variables : FilePath → Place
  -- `["layers", ..]`
  in_layers : FilePath → Place
  elsewhere : Place

abbrev pub place_entry : Option (FilePath × Bytes) → Place
place_entry none = elsewhere
place_entry (some ([], file)) = elsewhere
place_entry (some (dir ∷ middle, file)) = in_entries (dir ∷ middle) file

unfoldable pub place_model : FilePath → Place
place_model [] = elsewhere
place_model (name ∷ rest) =
    if text_eq name (codes "catalogs")
    then in_catalogs rest
    else if text_eq name (codes "context")
    then in_context rest
    else elsewhere

unfoldable pub place_data : FilePath → Place
unfolding split_last
place_data [] = elsewhere
place_data (name ∷ rest) =
    if text_eq name (codes "catalogs") then place_entry (split_last rest) else elsewhere

unfoldable pub place : FilePath → Place
unfolding place_model place_data
place [] = elsewhere
place (name ∷ rest) =
    if text_eq name (codes "lists")
    then in_lists rest
    else if text_eq name (codes "variables")
    then in_variables rest
    else if text_eq name (codes "layers")
    then in_layers rest
    else if text_eq name (codes "model")
    then place_model rest
    else if text_eq name (codes "data")
    then place_data rest
    else elsewhere

-- `namespaced`: the joined names without the suffix, which is neither empty nor ends with a slash
unfoldable pub namespaced : FilePath → Bytes → Option Bytes
namespaced parts suffix = elim (strip_suffix (join b'/' parts) suffix) [
  | none ↦ none
  | some id ↦ if not (is_empty id) && not (ends_with id slash) then some id else none
]

-- `strip_suffix(s).unwrap_or(text)`
abbrev pub without : Bytes → Bytes → Bytes
without text suffix = elim (strip_suffix text suffix) [ none ↦ text | some rest ↦ rest ]

-- A name has the extension `toml` when a stem that is not empty stands before `.toml`.
abbrev pub toml_stem : Bytes → Option Bytes
toml_stem name = elim (strip_suffix name toml_suffix) [
  | none ↦ none
  | some stem ↦ if is_empty stem then none else some stem
]

-- of a path that stands under `variables`
abbrev pub variable_id : FilePath → Option Bytes
variable_id rest = elim (split_last rest) [
  | none ↦ none
  | some (dirs, name) ↦ elim (toml_stem name) [
    | none ↦ none
    | some stem ↦ some (without (join b'/' (dirs ++ stem ∷ [])) (codes ".update"))
  ]
]

unfoldable pub variable_id_for_relative : FilePath → Option Bytes
unfolding below split_last
variable_id_for_relative relative = elim (below (codes "variables" ∷ []) relative) [
  | none ↦ none
  | some rest ↦ variable_id rest
]

unfoldable pub file_stem_of : Bytes → Bytes
file_stem_of name = without (without name toml_suffix) (codes ".update")
