-- ===== src/Layer/Edits.antt =====
-- What the composition of a plain file and of a catalog entry leaves alone.
use rototo.Base.{
  Bool, true, false, ◌++◌, some, ◌≡◌, refl, arith, inl, inr, Option-cases, ok, Result-cases, Bytes,
}
use mathlib.Core.Path.{subst}
use rototo.Toml.{Toml, Value}
use rototo.Layer.Files.{
  FilePath, same_path, Nodes, file, Files, at, file_at, is_file, put, remove_file,
}
use rototo.Layer.FilesLaws.{same_path_refl, at-put, at-remove_file}
use rototo.Layer.Places.{
  toml_suffix, update_suffix, file_stem_of, without, variable_id_for_relative,
}
use rototo.Layer.Classify.{
  LayerFileComposition, replace_whole, catalog_entry_deleted, catalog_entry_update, variable_update,
  variable_restate, list_update, list_restate,
}
use rototo.Layer.Landing.{
  Contributor, Landing, record_variable, beside, toml_beside, read_layer_toml, write_layer_toml,
}
use rototo.Layer.Merge.{deep_merge}
use rototo.Layer.Updates.{replace_file, delete_entry, update_entry}

-- the name of the file in the projection that a file of the layer is about, in the same directory
abbrev pub target_name : Bytes → LayerFileComposition → Bytes
target_name name (catalog_entry_deleted entry) = entry ++ toml_suffix
target_name name (catalog_entry_update entry) = entry ++ toml_suffix
target_name name variable_update = file_stem_of name ++ toml_suffix
target_name name list_update = without name update_suffix ++ toml_suffix
target_name name _ = name

abbrev pub target_of : FilePath → Bytes → LayerFileComposition → FilePath
target_of dirs name kind = beside dirs (target_name name kind)

-- the markers, which change what is there and do not land themselves
abbrev pub marks : LayerFileComposition → Bool
marks replace_whole = false
marks variable_restate = false
marks list_restate = false
marks _ = true

-- at most the path `q` is changed
abbrev pub IsEdit : FilePath → Files → Files → Type 0
IsEdit q files next = (p : FilePath) → same_path q p ≡ false → at next p ≡ at files p

pub IsEdit-put :
    (files : Files) (q : FilePath) (text : Bytes) → IsEdit q files (put files q (file text))
IsEdit-put files q text p h = rw (at-put files q p (file text), h)

record_variable-files :
    (who : Contributor) (id : Bytes) (s : Landing) → (record_variable who id s).files ≡ s.files
unfolding record_variable
record_variable-files who id s = refl

-- the path was a file and nothing else is changed
abbrev pub IsEditOfFile : FilePath → Files → Landing → Type 0
IsEditOfFile q files next = IsEdit q files next.files × (is_file files q ≡ true)

module _ (T : Toml) where
  pub write-edits :
      (s : Landing) (path : FilePath) (value : Value T.Scalar) (next : Landing)
      → write_layer_toml T s path value ≡ ok next
      → IsEdit path s.files next.files
  unfolding write_layer_toml
  write-edits s path value next h = elim (Result-cases (T.print value)) [
    | inl (text, e) ↦
        let files : put s.files path (file text) ≡ next.files = ground arith in
        subst (IsEdit path s.files) files (IsEdit-put s.files path text)
    | inr (message, e) ↦ ground arith
  ]

  pub replace-edits :
      (who : Contributor) (s : Landing) (relative : FilePath) (text : Bytes) (next : Landing)
      → replace_file T who s relative text ≡ ok next
      → IsEdit relative s.files next.files
  unfolding replace_file record_variable
  replace-edits who s relative text next h =
      let files : put s.files relative (file text) ≡ next.files =
        elim (Option-cases (variable_id_for_relative relative)) [
          | inl e ↦ ground (arith, h)
          | inr (id, e) ↦ ground (arith, h)
        ] in
      subst (IsEdit relative s.files) files (IsEdit-put s.files relative text)

  pub replace-at :
      (who : Contributor) (s : Landing) (relative : FilePath) (text : Bytes) (next : Landing)
      → replace_file T who s relative text ≡ ok next
      → at next.files relative ≡ some (file text)
  unfolding replace_file record_variable
  replace-at who s relative text next h =
      let files : put s.files relative (file text) ≡ next.files =
        elim (Option-cases (variable_id_for_relative relative)) [
          | inl e ↦ ground (arith, h)
          | inr (id, e) ↦ ground (arith, h)
        ] in
      subst (λ f. at f relative ≡ some (file text)) files
        (ground (arith, at-put s.files relative relative (file text), same_path_refl relative))

  pub delete-edits :
      (layer : Nodes) (s : Landing) (dirs : FilePath) (name entry : Bytes) (next : Landing)
      → delete_entry T layer s dirs name entry ≡ ok next
      → IsEditOfFile (toml_beside dirs entry) s.files next
  unfolding delete_entry
  delete-edits layer s dirs name entry next h =
      let there : is_file s.files (toml_beside dirs entry) ≡ true = ground (arith, h) in
      let files : remove_file s.files (toml_beside dirs entry) ≡ next.files = ground (arith, h) in
      (
        subst (IsEdit (toml_beside dirs entry) s.files) files
            (λ p d. at-remove_file s.files (toml_beside dirs entry) p d),
        there,
      )

  pub update-edits :
      (layer : Nodes) (s : Landing) (dirs : FilePath) (name entry text : Bytes) (next : Landing)
      → update_entry T layer s dirs name entry text ≡ ok next
      → IsEditOfFile (toml_beside dirs entry) s.files next
  unfolding update_entry
  update-edits layer s dirs name entry text next h =
      let path = toml_beside dirs entry in
      let there : is_file s.files path ≡ true = ground (arith, h) in
      elim (Result-cases (read_layer_toml T path (file_at s.files path))) [
        | inr (_, e) ↦ ground (arith, h)
        | inl (base, e) ↦ elim (Result-cases (read_layer_toml T (beside dirs name) (some text))) [
          | inr (_, d) ↦ ground (arith, h)
          | inl (update, d) ↦
              let wrote : write_layer_toml T s path (deep_merge base update) ≡ ok next =
                ground (arith, h) in
              (write-edits s path (deep_merge base update) next wrote, there)
        ]
      ]
