-- ===== src/Layer/Frame.antt =====
-- What the composition of one file leaves alone.
use rototo.Base.{
  true, false, some, ◌≡◌, refl, arith, inl, inr, Option-cases, ok, Result-cases, Bytes,
  strip_suffix,
}
use mathlib.Core.Path.{subst}
use rototo.Toml.{Toml}
use rototo.Layer.Files.{FilePath, Nodes, file_at, is_file}
use rototo.Layer.Places.{update_suffix, file_stem_of, without}
use rototo.Layer.Classify.{
  LayerFileComposition, replace_whole, catalog_entry_deleted, catalog_entry_update, variable_update,
  variable_restate, list_update, list_restate,
}
use rototo.Layer.Landing.{
  Contributor, Landing, record_variable, beside, toml_beside, read_layer_toml, write_layer_toml,
}
use rototo.Layer.Errors.{LayerError}
use rototo.Layer.Members.{compose_list_members}
use rototo.Layer.Updates.{update_of, insert_into, update_variable}
use rototo.Layer.ListUpdates.{restate, with_description, update_list, update_list_at}
use rototo.Layer.Compose.{compose_as}
use rototo.Layer.Edits.{
  target_of, marks, IsEdit, IsEditOfFile, write-edits, replace-edits, delete-edits, update-edits,
}

module _ (T : Toml) where
  variable-edits :
      (who : Contributor) (layer : Nodes) (s : Landing) (dirs : FilePath) (name text : Bytes)
      (next : Landing)
      → update_variable T who layer s dirs name text ≡ ok next
      → IsEditOfFile (toml_beside dirs (file_stem_of name)) s.files next
  unfolding update_variable record_variable
  variable-edits who layer s dirs name text next h =
      let path = toml_beside dirs (file_stem_of name) in
      let there : is_file s.files path ≡ true = ground (arith, h) in
      elim (Result-cases (read_layer_toml T (beside dirs name) (some text))) [
        | inr (_, e) ↦ ground (arith, h)
        | inl (value, e) ↦ elim (Result-cases (update_of T (beside dirs name) value)) [
          | inr (_, d) ↦ ground (arith, h)
          | inl (update, d) ↦ elim (Result-cases (read_layer_toml T path (file_at s.files path))) [
            | inr (_, c) ↦ ground (arith, h)
            | inl (base, c) ↦
                elim (Result-cases (write_layer_toml T s path (insert_into T base update))) [
                  | inr (_, b) ↦ ground (arith, h)
                  | inl (written, b) ↦
                      let files : written.files ≡ next.files = ground (arith, h) in
                      (
                        subst (IsEdit path s.files) files
                            (write-edits T s path (insert_into T base update) written b),
                        there,
                      )
                ]
          ]
        ]
      ]

  list-edits :
      (s : Landing) (relative path : FilePath) (text : Bytes) (next : Landing)
      → update_list_at T s relative path text ≡ ok next
      → IsEditOfFile path s.files next
  unfolding update_list_at
  list-edits s relative path text next h =
      let there : is_file s.files path ≡ true = ground (arith, h) in
      elim (Result-cases (read_layer_toml T relative (some text))) [
        | inr (_, e) ↦ ground (arith, h)
        | inl (overlay, e) ↦ elim (Result-cases (read_layer_toml T path (file_at s.files path))) [
          | inr (_, d) ↦ ground (arith, h)
          | inl (base, d) ↦
              elim (Result-cases
                (compose_list_members T (with_description T base overlay) overlay relative)) [
                  | inr (_, c) ↦ ground (arith, h)
                  | inl (composed, c) ↦
                      let wrote : write_layer_toml T s path composed ≡ ok next =
                        ground (arith, h) in
                      (write-edits T s path composed next wrote, there)
                ]
        ]
      ]

  update_list-edits :
      (s : Landing) (dirs : FilePath) (name text : Bytes) (next : Landing)
      → update_list T s dirs name text ≡ ok next
      → IsEditOfFile (toml_beside dirs (without name update_suffix)) s.files next
  unfolding update_list
  update_list-edits s dirs name text next h =
      elim (Option-cases (strip_suffix name update_suffix)) [
        | inl e ↦ ground (arith, h)
        | inr (stem, e) ↦
            let same : stem ≡ without name update_suffix = ground (arith, e) in
            subst (λ t. IsEditOfFile (toml_beside dirs t) s.files next) same
              (list-edits s (beside dirs name) (toml_beside dirs stem) text next
                (ground (arith, h)))
      ]

  pub restate-files :
      (s : Landing) (relative : FilePath) (text : Bytes) (denied : LayerError T.Scalar)
      (next : Landing)
      → restate T s relative text denied ≡ ok next
      → s.files ≡ next.files
  restate-files s relative text denied next h = elim (Option-cases (file_at s.files relative)) [
    | inl e ↦ ground (arith, h)
    | inr (other, e) ↦ ground (arith, h)
  ]

  pub no-IsEdit :
      (q : FilePath) (s next : Landing)
      → s.files ≡ next.files
      → IsEdit q s.files next.files × (false ≡ true → is_file s.files q ≡ true)
  no-IsEdit q s next same = (subst (IsEdit q s.files) same (λ p d. refl), λ c. cc)

  pub compose_as-IsEdit :
      (who : Contributor) (layer : Nodes) (s : Landing) (dirs : FilePath) (name text : Bytes)
      (kind : LayerFileComposition) (next : Landing)
      → compose_as T who layer s dirs name text kind ≡ ok next
      → IsEdit (target_of dirs name kind) s.files next.files
        × (marks kind ≡ true → is_file s.files (target_of dirs name kind) ≡ true)
  unfolding compose_as
  compose_as-IsEdit who layer s dirs name text replace_whole next h =
      (replace-edits T who s (beside dirs name) text next h, λ c. cc)
  compose_as-IsEdit who layer s dirs name text (catalog_entry_deleted entry) next h =
      let (edit, there) = (delete-edits T layer s dirs name entry next h) in (edit, λ _. there)
  compose_as-IsEdit who layer s dirs name text (catalog_entry_update entry) next h =
      let (edit, there) = (update-edits T layer s dirs name entry text next h) in (edit, λ _. there)
  compose_as-IsEdit who layer s dirs name text variable_update next h =
      let (edit, there) = (variable-edits who layer s dirs name text next h) in (edit, λ _. there)
  compose_as-IsEdit who layer s dirs name text variable_restate next h =
      no-IsEdit (beside dirs name) s next (restate-files s (beside dirs name) text _ next h)
  compose_as-IsEdit who layer s dirs name text list_update next h =
      let (edit, there) = (update_list-edits s dirs name text next h) in (edit, λ _. there)
  compose_as-IsEdit who layer s dirs name text list_restate next h =
      no-IsEdit (beside dirs name) s next (restate-files s (beside dirs name) text _ next h)
