-- ===== src/Layer/Enforce.antt =====
-- src/source/layer/enforce.rs: the contract of a projection is enforced on the next layer.
use rototo.Base.{
  ◌&&◌, not, List, [], ◌∷◌, ◌++◌, Option, none, some, if◌then◌else◌, Result, ok, err, ◌>>=◌, ◌>>◌,
  guard, Bytes, codes, text_eq, strip_suffix, ends_with, join, is_empty,
}
use rototo.Toml.{Toml, as_table, table_keys}
use rototo.Governance.Contract.{
  add, update, delete, GovernanceContract, GovernanceError, check, check_ceiling,
}
use rototo.Governance.Parse.{parse_contract, read_governance_contract}
use rototo.Layer.Files.{
  FilePath, Node, Nodes, contents, directory, special, no_nodes, node, is_layer_file, Files,
  file_at, is_file,
}
use rototo.Layer.Errors.{
  deleted_marker, update_marker, LayerError, unreadable, updates_and_deletes, variable_restated,
  governed, schema_edit_denied, changes_sample, replaces_entry, replaces_lint,
  governance_unparsable,
}
use rototo.Layer.Landing.{beside, toml_beside, Checked, read_layer_toml}
use rototo.Layer.Updates.{reject_same_layer_entry}
use rototo.Layer.Places.{
  Place, place, in_catalogs, in_context, in_entries, in_lists, in_variables, in_layers, elsewhere,
  split_last, namespaced, variable_id_for_relative, file_stem_of, toml_suffix, update_suffix,
  deleted_suffix, schema_suffix, manifest_name, governance_name,
}
use rototo.Layer.Siblings.{samples_of, is_marked, file_identical}
use rototo.Layer.Declared.{
  context_schema, list_file, declared_below, any_declared_below, governing_catalog, entry_name,
}

module _ (T : Toml) where
  abbrev pub as_governed : Result GovernanceError (Unit {0}) → Checked T
  as_governed (ok u) = ok tt
  as_governed (err e) = err (governed e)

  unfoldable pub toml_top_level_keys :
      FilePath → Option Bytes → Result (LayerError T.Scalar) (List Bytes)
  toml_top_level_keys path text = do
    value ← read_layer_toml T path text
    ok (elim (as_table value) [ none ↦ [] | some fields ↦ table_keys fields ])

  -- The parameters that one enforcement shares: the contract, the layer and the projection.
  module _ (contract : GovernanceContract) (layer : Nodes) (files : Files) where
    unfoldable pub check_governance_file : FilePath → Option Bytes → Checked T
    unfolding parse_contract check_ceiling declared_below any_declared_below
    check_governance_file relative none = err (unreadable relative)
    check_governance_file relative (some text) = elim (T.parse text) [
      | err message ↦ err (governance_unparsable message)
      | ok value ↦ as_governed (
          check_ceiling contract (parse_contract value) (declared_below files)
            (any_declared_below files))
    ]

    abbrev pub check_schema : Bytes → Option Bytes → FilePath → Checked T
    check_schema what none relative = ok tt
    check_schema what (some id) relative =
        guard (not (is_file files relative)) (schema_edit_denied what id)

    abbrev pub check_sample : Option Bytes → FilePath → Checked T
    check_sample none relative = ok tt
    check_sample (some id) relative =
        guard (not (is_file files (context_schema id) && is_file files relative))
          (changes_sample id)

    abbrev pub check_list : FilePath → Checked T
    check_list rest = if not (is_marked rest) then ok tt else elim (namespaced rest update_suffix) [
      | none ↦ ok tt
      | some id ↦
          if is_file files (list_file id)
          then as_governed (check contract (codes "list") id update none [])
          else ok tt
    ]

    unfoldable pub check_removal : Bytes → FilePath → FilePath → Bytes → Bytes → Checked T
    unfolding reject_same_layer_entry check
    check_removal catalog namespace dirs name stem = do
      reject_same_layer_entry T layer dirs name (entry_name namespace stem) deleted_marker
      guard (not (is_layer_file layer (beside dirs (stem ++ update_suffix))))
          (updates_and_deletes (entry_name namespace stem))
      as_governed
          (check contract (codes "catalog") catalog delete (some (entry_name namespace stem)) [])

    unfoldable pub check_update :
        Bytes → FilePath → FilePath → Bytes → Bytes → Option Bytes → Checked T
    unfolding reject_same_layer_entry check toml_top_level_keys
    check_update catalog namespace dirs name stem text = do
      reject_same_layer_entry T layer dirs name (entry_name namespace stem) update_marker
      fields ← toml_top_level_keys (beside dirs name) text
      as_governed (
          check contract (codes "catalog") catalog update (some (entry_name namespace stem)) fields)

    unfoldable pub check_entry_file :
        Option (FilePath × FilePath) → FilePath → Bytes → Option Bytes → Checked T
    unfolding check_removal check_update
    check_entry_file none dirs name text = ok tt
    check_entry_file (some (catalog, namespace)) dirs name text =
        elim (strip_suffix name deleted_suffix) [
          | some stem ↦ check_removal (join b'/' catalog) namespace dirs name stem
          | none ↦ elim (strip_suffix name update_suffix) [
            | some stem ↦ check_update (join b'/' catalog) namespace dirs name stem text
            | none ↦ elim (strip_suffix name toml_suffix) [
              | none ↦ ok tt
              | some stem ↦
                  if is_file files (beside dirs name)
                  then err (replaces_entry (entry_name namespace stem))
                  else as_governed
                      (check contract (codes "catalog") (join b'/' catalog) add none [])
            ]
          ]
        ]

    abbrev pub check_variable : Option Bytes → FilePath → Bytes → Checked T
    check_variable none dirs name = ok tt
    check_variable (some id) dirs name =
        if ends_with name update_suffix
        then (if is_file files (toml_beside dirs (file_stem_of name))
            then as_governed (check contract (codes "variable") id update none [])
            else ok tt)
        else guard (not (is_file files (beside dirs name))) (variable_restated id)

    abbrev pub check_layer : Option Bytes → FilePath → Checked T
    check_layer none relative = ok tt
    check_layer (some id) relative =
        if is_file files relative
        then as_governed (check contract (codes "layer") id update none [])
        else ok tt

    -- `["lint", file]`
    abbrev pub check_lint : FilePath → Bytes → Checked T
    check_lint (dir ∷ []) name =
        guard (not (text_eq dir (codes "lint") && is_file files (beside (dir ∷ []) name)))
          (replaces_lint name)
    check_lint _ name = ok tt

    -- the patterns behind those of the two files at the root, of a file that stands in a place
    unfoldable pub check_at : Place → FilePath → Bytes → Option Bytes → Checked T
    unfolding namespaced split_last variable_id_for_relative governing_catalog check_entry_file
        check
    check_at (in_catalogs rest) dirs name text =
        check_schema (codes "catalog schema") (namespaced rest schema_suffix) (beside dirs name)
    check_at (in_context rest) dirs name text = elim (samples_of rest) [
      | some (parts, sample) ↦ check_sample (namespaced parts (codes "-samples")) (beside dirs name)
      | none ↦
          check_schema (codes "evaluation context schema") (namespaced rest schema_suffix)
            (beside dirs name)
    ]
    check_at (in_lists rest) dirs name text = check_list rest
    check_at (in_entries middle last) dirs name text =
        check_entry_file (governing_catalog files [] middle) dirs name text
    check_at (in_variables []) dirs name text = ok tt
    check_at (in_variables (next ∷ rest)) dirs name text =
        check_variable (variable_id_for_relative (beside dirs name)) dirs name
    check_at (in_layers rest) dirs name text =
        check_layer (namespaced rest toml_suffix) (beside dirs name)
    check_at elsewhere dirs name text = check_lint dirs name

    -- `check_governed_file`, for the entry of the layer at `dirs` with this name
    unfoldable pub check_governed_file : FilePath → Bytes → Option Bytes → Checked T
    unfolding check_governance_file check_at place
    check_governed_file dirs name text =
        if is_empty dirs && text_eq name manifest_name
        then ok tt
        else if is_empty dirs && text_eq name governance_name
        then check_governance_file (beside dirs name) text
        else check_at (place (beside dirs name)) dirs name text

    -- a file that is in the projection with the same bytes is no change
    abbrev pub check_changed_file : FilePath → Bytes → Option Bytes → Checked T
    check_changed_file dirs name none = check_governed_file dirs name none
    check_changed_file dirs name (some text) =
        if file_identical text (file_at files (beside dirs name))
        then ok tt
        else check_governed_file dirs name (some text)

    -- the entries of a directory that are no directories, in their order
    unfoldable pub enforce_files : FilePath → Nodes → Checked T
    unfolding check_governed_file
    enforce_files dirs no_nodes = ok tt
    enforce_files dirs (node name (contents text) nodes) = do
      check_changed_file dirs name (some text)
      enforce_files dirs nodes
    enforce_files dirs (node name special nodes) = do
      check_changed_file dirs name none
      enforce_files dirs nodes
    enforce_files dirs (node name (directory inner) nodes) = enforce_files dirs nodes

    -- The directories wait on a stack, so that the last of them comes first, and all that is in it
    -- before the next.
    unfoldable mutual
      unfolding enforce_files

      pub enforce_folders : FilePath → Nodes → Checked T
      enforce_folders dirs no_nodes = ok tt
      enforce_folders dirs (node name entry nodes) = do
        enforce_folders dirs nodes
        enforce_folder (beside dirs name) entry

      pub enforce_folder : FilePath → Node → Checked T
      enforce_folder dirs (directory nodes) = do
        enforce_files dirs nodes
        enforce_folders dirs nodes
      enforce_folder dirs _ = ok tt

  -- `enforce_layer_governance_sync`
  unfoldable pub enforce_layer_governance : Nodes → Files → Checked T
  unfolding read_governance_contract enforce_folders
  enforce_layer_governance layer files =
      enforce_folder (read_governance_contract T (file_at files (governance_name ∷ []))) layer files
        [] (directory layer)
