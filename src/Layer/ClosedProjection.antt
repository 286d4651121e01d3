-- ===== src/Layer/ClosedProjection.antt =====
-- The enforcement and the copy of a layer together, over a projection that allows nothing.
use rototo.Base.{
  Bool, true, false, [], ◌∷◌, ◌≡◌, refl, ◌∙◌, arith, inl, inr, Bool-cases, ok, >>-eq-ok, Bytes, Map,
}
use mathlib.Core.Path.{subst}
use rototo.Toml.{Toml}
use rototo.Governance.Contract.{GovernanceContract}
use rototo.Governance.Parse.{read_governance_contract}
use rototo.Layer.Files.{
  FilePath, same_path, Nodes, folder, Files, at, file_at, is_file, is_folder, is_below,
}
use rototo.Layer.FilesLaws.{at-put, at-remove_folder}
use rototo.Layer.Places.{governance_name}
use rototo.Layer.Landing.{Landing, beside}
use rototo.Layer.Siblings.{file_identical}
use rototo.Layer.Copy.{
  make_folder, clear_folder, Copying, land_file, provenance_name, Sidecar, copying,
  copy_package_layer,
}
use rototo.Layer.Enforce.{enforce_files, enforce_folders, enforce_layer_governance}
use rototo.Layer.Walk.{
  Every, Every-both, land_file-cases, copy_entries-Holds, add_provenance-IsEdit,
  copy_package_layer-steps,
}
use rototo.Layer.Markers.{HasNoMarkers}
use rototo.Layer.Enforced.{Passed, enforced}
use rototo.Layer.Closed.{IsClosed, is_protected}
use rototo.Layer.Untouched.{root_free, changed_file, identical_file}

-- No file of the layer stands where the path needs a directory, and no directory at the path.
abbrev FileFits : FilePath → FilePath → Bytes → Bytes → Type 0
FileFits p dirs name text = is_below (beside dirs name) p ≡ true → beside dirs name ≡ p

abbrev FolderFits : FilePath → FilePath → Type 0
FolderFits p path = same_path path p ≡ false

abbrev pub KeepsKinds : FilePath → Nodes → Type 0
KeepsKinds p layer = Every (FileFits p) (FolderFits p) [] layer

make_folder-at :
    (path p : FilePath) (s : Landing)
    → same_path path p ≡ false
    → at (make_folder path s).files p ≡ at s.files p
unfolding make_folder
make_folder-at path p s h = elim (Bool-cases (is_folder s.files path)) [
  | inl e ↦ ground arith
  | inr e ↦ ground (arith, at-put s.files path p folder)
]

clear_folder-at :
    (path p : FilePath) (s : Landing)
    → (is_below path p ≡ true → path ≡ p)
    → is_file s.files p ≡ true
    → at (clear_folder path s).files p ≡ at s.files p
unfolding clear_folder
clear_folder-at path p s fits there = elim (Bool-cases (is_folder s.files path)) [
  | inr e ↦ ground arith
  | inl e ↦ elim (Bool-cases (is_below path p)) [
    | inr d ↦ ground (arith, at-remove_folder s.files path p d)
    | inl d ↦
        let same : is_folder s.files p ≡ true =
          subst (λ q. is_folder s.files q ≡ true) (fits d) e in
        absurd (ground (arith, same, there))
  ]
]

not_at_root :
    (files : Files) (dirs : FilePath) (name n : Bytes)
    → is_protected files dirs name ≡ true
    → same_path (n ∷ []) (beside dirs name) ≡ false
unfolding same_path
not_at_root files [] name n h = absurd (ground (arith, root_free files name))
not_at_root files (d ∷ []) name n h = ground arith
not_at_root files (d ∷ e ∷ dirs) name n h = ground arith

not_root : (dirs : FilePath) (name : Bytes) → same_path [] (beside dirs name) ≡ false
unfolding same_path
not_root [] name = refl
not_root (d ∷ dirs) name = refl

module _ (T : Toml) (J : Sidecar) (layer : Nodes) (files : Files) (dirs : FilePath) (name : Bytes)
    (closed : IsClosed (read_governance_contract T (file_at files (governance_name ∷ []))))
    (clean : HasNoMarkers files) (safe : is_protected files dirs name ≡ true)
    (there : is_file files (beside dirs name) ≡ true) where
  abbrev Kept : Files → Type 0
  Kept now = at now (beside dirs name) ≡ at files (beside dirs name)

  abbrev contract : GovernanceContract
  contract = read_governance_contract T (file_at files (governance_name ∷ []))

  Kept-lands :
      (c : Copying) (ds : FilePath) (n text : Bytes) (s next : Landing)
      → FileFits (beside dirs name) ds n text × Passed T contract c.layer files ds n text
      → Kept s.files
      → land_file T c ds n text s ≡ ok next
      → Kept next.files
  Kept-lands c ds n text s next (fits, passed) kept done =
      let cleared =
        clear_folder-at (beside ds n) (beside dirs name) s fits (ground (arith, kept, there))
        ∙ kept in
      elim (land_file-cases T c ds n text s next done) [
        | inl same ↦ subst Kept same cleared
        | inr (claimed, same, composed) ↦
            let before = subst Kept same cleared in
            elim (Bool-cases (file_identical text (file_at files (beside ds n)))) [
              | inl e ↦
                  identical_file T contract closed c.layer files clean c.who claimed next ds n text
                    (beside dirs name) e before composed
              | inr e ↦
                  changed_file T contract closed c.layer files clean c.who claimed next ds dirs n
                    name text (ground (arith, e, passed)) safe there before composed
            ]
      ]

  all-Passed :
      enforce_layer_governance T layer files ≡ ok tt
      → Every (Passed T contract layer files) (λ p. Unit) [] layer
  unfolding enforce_layer_governance
  all-Passed enforcement =
      let (in_files, in_folders) =
        >>-eq-ok (enforce_files T contract layer files [] layer)
          (enforce_folders T contract layer files [] layer) enforcement in
      enforced T contract layer files [] layer in_files in_folders

  -- If the contract of a projection allows no operation, the projection holds no markers, a path
  -- is that of a file of an entity (a schema, a sample of a context with a schema, a list, an
  -- entry of a catalog with a schema, a variable, a traffic layer or a lint rule), no file of a
  -- layer stands where that path needs a directory, no directory of the layer stands at the path,
  -- the layer passes the enforcement and is copied on the projection, then the path holds what it
  -- held before.
  pub closed_projection :
      (include_manifest : Bool) (label : Bytes) (provided : Map Bytes) (next : Landing)
      → KeepsKinds (beside dirs name) layer
      → enforce_layer_governance T layer files ≡ ok tt
      → copy_package_layer T J layer include_manifest label false files provided ≡ ok next
      → at next.files (beside dirs name) ≡ at files (beside dirs name)
  closed_projection include_manifest label provided next fits enforcement done =
      let (landed, copied, added) =
        copy_package_layer-steps T J layer include_manifest label false files provided next done in
      let c = copying T J layer include_manifest label false in
      let start : Landing = record { files = files; recorded = []; provided = provided } in
      add_provenance-IsEdit T J landed next added (beside dirs name)
        (not_at_root files dirs name provenance_name safe)
      ∙ copy_entries-Holds T c _ _ Kept (Kept-lands c)
          (λ path s (free, _) kept. make_folder-at path (beside dirs name) s free ∙ kept) [] layer
          (make_folder [] start) landed (Every-both _ _ _ _ [] layer fits (all-Passed enforcement))
          (make_folder-at [] (beside dirs name) start (not_root dirs name)) copied
