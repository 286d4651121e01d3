-- ===== src/Layer/Updates.antt =====
-- The arms of `compose_package_layer_file` of src/source/layer/compose.rs for plain files, for
-- catalog entries and for variables.
use rototo.Base.{
  ◌&&◌, ◌||◌, not, [], ◌++◌, Option, none, some, if◌then◌else◌, Result, ok, err, ◌>>=◌, ◌>>◌, guard,
  Bytes, codes, text_eq, strip_suffix, is_empty,
}
use rototo.Toml.{Toml, Value, Table, table, end_table, pair, contains_key, insert}
use rototo.Layer.Files.{FilePath, Nodes, is_layer_file, file, file_at, is_file, remove_file, put}
use rototo.Layer.Errors.{
  Marker, deleted_marker, update_marker, LayerError, provides_and_declares, updates_and_deletes,
  no_entry_to_remove, no_entry_to_update, provides_and_updates, no_variable_to_update,
  update_not_a_table, variable_update_declares,
}
use rototo.Layer.Places.{update_suffix, deleted_suffix, variable_id_for_relative, file_stem_of}
use rototo.Layer.Merge.{deep_merge}
use rototo.Layer.Landing.{
  Contributor, Landing, record_variable, beside, toml_beside, Checked, Landed, read_layer_toml,
  write_layer_toml,
}

module _ (T : Toml) where
  unfoldable pub reject_same_layer_entry : Nodes → FilePath → Bytes → Bytes → Marker → Checked T
  reject_same_layer_entry layer dirs name entry marker =
      let local : Option Bytes = elim (strip_suffix name deleted_suffix) [
        | some stem ↦ some stem
        | none ↦ strip_suffix name update_suffix
      ] in
      elim local [
        | none ↦ ok tt
        | some stem ↦
            guard (not (is_layer_file layer (toml_beside dirs stem)))
              (provides_and_declares entry marker)
      ]

  unfoldable pub replace_file : Contributor → Landing → FilePath → Bytes → Landed T
  replace_file who s relative text =
      let copied = record s { files = put s.files relative (file text) } in
      elim (variable_id_for_relative relative) [
        | none ↦ ok copied
        | some id ↦ ok (record_variable who id copied)
      ]

  unfoldable pub delete_entry : Nodes → Landing → FilePath → Bytes → Bytes → Landed T
  delete_entry layer s dirs name entry = do
    reject_same_layer_entry layer dirs name entry deleted_marker
    guard (not (is_layer_file layer (beside dirs (entry ++ update_suffix))))
        (updates_and_deletes entry)
    guard (is_file s.files (toml_beside dirs entry)) (no_entry_to_remove (beside dirs name))
    ok (record s { files = remove_file s.files (toml_beside dirs entry) })

  unfoldable pub update_entry : Nodes → Landing → FilePath → Bytes → Bytes → Bytes → Landed T
  update_entry layer s dirs name entry text = do
    reject_same_layer_entry layer dirs name entry update_marker
    guard (is_file s.files (toml_beside dirs entry)) (no_entry_to_update (beside dirs name))
    base ← read_layer_toml T (toml_beside dirs entry) (file_at s.files (toml_beside dirs entry))
    update ← read_layer_toml T (beside dirs name) (some text)
    write_layer_toml T s (toml_beside dirs entry) (deep_merge base update)

  -- the loop over the keys of a variable update
  unfoldable pub check_variable_update : FilePath → Table T.Scalar → Checked T
  check_variable_update relative end_table = ok tt
  check_variable_update relative (pair key value update) = do
    guard (text_eq key (codes "resolve") || text_eq key (codes "description"))
        (variable_update_declares relative key)
    check_variable_update relative update

  -- each key of the update replaces the base's key whole
  unfoldable pub insert_all : Table T.Scalar → Table T.Scalar → Table T.Scalar
  insert_all base end_table = base
  insert_all base (pair key value update) = insert_all (insert base key value) update

  abbrev pub insert_into : Value T.Scalar → Table T.Scalar → Value T.Scalar
  insert_into (table base) update = table (insert_all base update)
  insert_into base update = base

  abbrev pub or_blank : Option Bytes → Bytes
  or_blank none = []
  or_blank (some id) = id

  abbrev pub update_of : FilePath → Value T.Scalar → Result (LayerError T.Scalar) (Table T.Scalar)
  update_of relative (table update) = ok update
  update_of relative _ = err (update_not_a_table relative)

  unfoldable pub update_variable :
      Contributor → Nodes → Landing → FilePath → Bytes → Bytes → Landed T
  update_variable who layer s dirs name text =
      let id = or_blank (variable_id_for_relative (beside dirs name)) in
      let entry = toml_beside dirs (file_stem_of name) in
      (do
        guard (not (is_layer_file layer entry)) (provides_and_updates id)
        guard (is_file s.files entry) (no_variable_to_update (beside dirs name))
        value ← read_layer_toml T (beside dirs name) (some text)
        update ← update_of (beside dirs name) value
        check_variable_update (beside dirs name) update
        base ← read_layer_toml T entry (file_at s.files entry)
        written ← write_layer_toml T s entry (insert_into base update)
        ok (
            if contains_key update (codes "resolve") && not (is_empty id)
            then record_variable who id written
            else written))
