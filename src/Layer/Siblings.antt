-- ===== src/Layer/Siblings.antt =====
-- src/source/layer/provenance.rs: the entity a file belongs to, and the bases of one `extends` list.
use rototo.Base.{
  Bool, true, false, [], ◌++◌, Option, none, some, if◌then◌else◌, Result, ok, err, Bytes, codes,
  text_eq, strip_suffix, ends_with, join, lookup, assign,
}
use rototo.Layer.Files.{FilePath, file_at}
use rototo.Layer.Errors.{LayerError, bases_conflict}
use rototo.Layer.Landing.{Contributor, Landing}
use rototo.Layer.Places.{
  place, in_catalogs, in_context, in_entries, in_lists, in_variables, in_layers, elsewhere,
  split_last, namespaced, variable_id_for_relative, toml_suffix, update_suffix, deleted_suffix,
  schema_suffix,
}

-- `["model", "context", .., samples, sample_file]` with the suffix `-samples`: what is before the
-- last name, and the last name
abbrev pub samples_of : FilePath → Option (FilePath × Bytes)
samples_of rest = elim (split_last rest) [
  | none ↦ none
  | some (parts, sample) ↦ elim (split_last parts) [
    | none ↦ none
    | some (dirs, samples) ↦
        if ends_with samples (codes "-samples") then some (parts, sample) else none
  ]
]

-- the last name is an update marker
abbrev pub is_marked : FilePath → Bool
is_marked rest = elim (split_last rest) [
  | none ↦ false
  | some (dirs, name) ↦ ends_with name update_suffix
]

-- the stem of an entry's file, for an entry, its update and its removal
abbrev pub entry_stem : Bytes → Option Bytes
entry_stem name = elim (strip_suffix name deleted_suffix) [
  | some stem ↦ some stem
  | none ↦ elim (strip_suffix name update_suffix) [
    | some stem ↦ some stem
    | none ↦ strip_suffix name toml_suffix
  ]
]

-- `id.map(|id| format!("{before}{id}{after}"))`
abbrev pub written : Bytes → Option Bytes → Bytes → Option Bytes
written before none after = none
written before (some id) after = some (before ++ id ++ after)

abbrev pub context_key : FilePath → Option Bytes
context_key rest = elim (samples_of rest) [
  | some (parts, sample) ↦
      written (codes "evaluation context ") (namespaced parts (codes "-samples"))
        (codes " sample " ++ sample)
  | none ↦ written (codes "evaluation context ") (namespaced rest schema_suffix) []
]

unfoldable pub entity_key : FilePath → Option Bytes
unfolding place namespaced split_last variable_id_for_relative
entity_key relative = elim (place relative) [
  | in_catalogs rest ↦ written (codes "catalog ") (namespaced rest schema_suffix) (codes " schema")
  | in_entries middle name ↦
      written (codes "catalog " ++ join b'/' middle ++ codes " entry ") (entry_stem name) []
  | in_lists rest ↦
      written (codes "list ")
        (namespaced rest (if is_marked rest then update_suffix else toml_suffix)) []
  | in_context rest ↦ context_key rest
  | in_layers rest ↦ written (codes "layer ") (namespaced rest toml_suffix) []
  | in_variables rest ↦ written (codes "variable ") (variable_id_for_relative relative) []
  | elsewhere ↦ none
]

unfoldable pub sibling_entity_key : FilePath → Bytes
unfolding entity_key
sibling_entity_key relative = elim (entity_key relative) [
  | none ↦ codes "file " ++ join b'/' relative
  | some key ↦ key
]

-- `file_identical`, of the text of a file of the layer and what is in the projection
abbrev pub file_identical : Bytes → Option Bytes → Bool
file_identical text none = false
file_identical text (some other) = text_eq text other

-- `SiblingBases::admit`: whether the landing is skipped, and the map behind it
unfoldable pub admit :
    {S : Type 0} → Contributor → Landing → FilePath → Bytes → Result (LayerError S) (Bool × Landing)
unfolding sibling_entity_key
admit who s relative text =
    let key = sibling_entity_key relative in
    let claimed = record s { provided = assign s.provided key who.label } in
    elim (lookup s.provided key) [
      | none ↦ ok (false, claimed)
      | some owner ↦
          if text_eq owner who.label
          then ok (false, claimed)
          else if file_identical text (file_at s.files relative)
          then ok (true, s)
          else err (bases_conflict key owner who.label)
    ]
