-- ===== src/Layer/Errors.antt =====
-- The errors of src/source/layer, a constructor for each message.
use rototo.Base.{Bytes}
use rototo.Toml.{Value}
use rototo.Layer.Files.{FilePath}
use rototo.Governance.Contract.{GovernanceError}

-- the operation that `reject_same_layer_entry` names
pub data Marker : Type 0 where
  deleted_marker update_marker : Marker

pub data LayerError (S : Type 0) : Type 0 where
  unsupported_entry : FilePath → LayerError S
  unreadable : FilePath → LayerError S
  unparsable : FilePath → Bytes → LayerError S
  unprintable : Bytes → LayerError S
  -- `compose_package_layer_file`
  provides_and_declares : Bytes → Marker → LayerError S
  updates_and_deletes : Bytes → LayerError S
  no_entry_to_remove : FilePath → LayerError S
  no_entry_to_update : FilePath → LayerError S
  provides_and_updates : Bytes → LayerError S
  no_variable_to_update : FilePath → LayerError S
  update_not_a_table : FilePath → LayerError S
  variable_update_declares : FilePath → Bytes → LayerError S
  variable_restated : Bytes → LayerError S
  no_list_to_update : FilePath → LayerError S
  list_update_sets : FilePath → Bytes → LayerError S
  list_restated : Bytes → LayerError S
  -- `compose_list_members`
  deleted_not_an_array : FilePath → LayerError S
  no_member_set : FilePath → LayerError S
  adds_and_deletes : Value S → FilePath → LayerError S
  deletes_no_member : Value S → FilePath → LayerError S
  leaves_no_members : FilePath → LayerError S
  -- `SiblingBases::admit`
  bases_conflict : Bytes → Bytes → Bytes → LayerError S
  -- `check_governed_file`
  governed : GovernanceError → LayerError S
  schema_edit_denied : Bytes → Bytes → LayerError S
  changes_sample : Bytes → LayerError S
  replaces_entry : Bytes → LayerError S
  replaces_lint : Bytes → LayerError S
  governance_unparsable : Bytes → LayerError S
