-- ===== src/Layer/Merge.antt =====
-- `deep_merge_toml` of src/source/layer/compose.rs.
use rototo.Base.{none, some}
use rototo.Toml.{Value, Table, table, end_table, pair, get, replace, insert}

unfoldable mutual
  pub deep_merge : {S : Type 0} → Value S → Value S → Value S
  deep_merge (table base) (table update) = table (merge_fields base update)
  deep_merge _ update = update

  -- the loop over the pairs of the update
  pub merge_fields : {S : Type 0} → Table S → Table S → Table S
  merge_fields base end_table = base
  merge_fields base (pair key value update) =
      merge_fields
        (elim (get base key) [
          | some existing ↦ replace base key (deep_merge existing value)
          | none ↦ insert base key value
        ])
        update
