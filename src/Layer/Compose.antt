-- ===== src/Layer/Compose.antt =====
-- `compose_package_layer_file` of src/source/layer/compose.rs: how one file of a layer lands.
use rototo.Base.{Bytes}
use rototo.Toml.{Toml}
use rototo.Layer.Files.{FilePath, Nodes, is_file}
use rototo.Layer.Errors.{variable_restated, list_restated}
use rototo.Layer.Places.{variable_id_for_relative}
use rototo.Layer.Classify.{
  LayerFileComposition, replace_whole, catalog_entry_deleted, catalog_entry_update, variable_update,
  variable_restate, list_update, list_restate, classify_layer_file,
}
use rototo.Layer.Landing.{Contributor, Landing, beside, Landed}
use rototo.Layer.Updates.{or_blank, replace_file, delete_entry, update_entry, update_variable}
use rototo.Layer.ListUpdates.{restate, list_id, update_list}

module _ (T : Toml) where
  unfoldable pub compose_as :
      Contributor → Nodes → Landing → FilePath → Bytes → Bytes → LayerFileComposition → Landed T
  unfolding replace_file delete_entry update_entry update_variable update_list
  compose_as who layer s dirs name text replace_whole = replace_file T who s (beside dirs name) text
  compose_as who layer s dirs name text (catalog_entry_deleted entry) =
      delete_entry T layer s dirs name entry
  compose_as who layer s dirs name text (catalog_entry_update entry) =
      update_entry T layer s dirs name entry text
  compose_as who layer s dirs name text variable_update =
      update_variable T who layer s dirs name text
  compose_as who layer s dirs name text variable_restate =
      restate T s (beside dirs name) text
        (variable_restated (or_blank T (variable_id_for_relative (beside dirs name))))
  compose_as who layer s dirs name text list_update = update_list T s dirs name text
  compose_as who layer s dirs name text list_restate =
      restate T s (beside dirs name) text (list_restated (list_id T (beside dirs name)))

  -- for the file of the layer at `dirs` with this name and text
  unfoldable pub compose_package_layer_file :
      Contributor → Nodes → Landing → FilePath → Bytes → Bytes → Landed T
  unfolding classify_layer_file compose_as
  compose_package_layer_file who layer s dirs name text =
      compose_as who layer s dirs name text
        (classify_layer_file (beside dirs name) name (is_file s.files (beside dirs name)))
