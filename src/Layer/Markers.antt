-- ===== src/Layer/Markers.antt =====
-- The update and deleted markers of a layer never stand in a projection.
use rototo.Base.{
  Bool, true, false, [], ◌∷◌, none, some, ◌≡◌, refl, sym, ◌∙◌, arith, inl, inr, Bool-cases, ok,
  Bytes, Map,
}
use mathlib.Core.Path.{subst}
use rototo.Toml.{Toml}
use rototo.Layer.Files.{FilePath, same_path, Nodes, folder, Files, is_file, is_folder, is_below}
use rototo.Layer.FilesLaws.{same_path-eq, at-put, at-remove_folder, at-remove_folder_below}
use rototo.Layer.Places.{Place, place, in_variables, in_lists, split_last}
use rototo.Layer.Classify.{
  LayerFileComposition, replace_whole, variable_restate, list_restate, classify_at,
  classify_layer_file,
}
use rototo.Layer.Landing.{Landing, beside}
use rototo.Layer.Compose.{compose_package_layer_file}
use rototo.Layer.Copy.{
  make_folder, clear_folder, Copying, land_file, provenance_name, Sidecar, copying, add_provenance,
  copy_package_layer,
}
use rototo.Layer.Edits.{target_of, marks}
use rototo.Layer.Frame.{compose_as-IsEdit}
use rototo.Layer.Walk.{
  Every-unit, land_file-cases, copy_entries-Holds, add_provenance-IsEdit, copy_package_layer-steps,
}

pub split_last-beside :
    (dirs : FilePath) (name : Bytes) → split_last (beside dirs name) ≡ some (dirs, name)
unfolding split_last
split_last-beside [] name = refl
split_last-beside (d ∷ []) name = refl
split_last-beside (d ∷ e ∷ dirs) name = rw (split_last-beside (e ∷ dirs) name)

-- the path is that of a marker: a file of a layer there would change another file
unfoldable pub is_marker : FilePath → Bool
unfolding split_last classify_layer_file
is_marker path = elim (split_last path) [
  | none ↦ false
  | some (dirs, name) ↦ marks (classify_layer_file path name false)
]

abbrev pub HasNoMarkers : Files → Type 0
HasNoMarkers files = (path : FilePath) → is_marker path ≡ true → is_file files path ≡ false

marks-classify_at :
    (at_place : Place) (name : Bytes) (exists : Bool)
    → marks (classify_at at_place name exists) ≡ marks (classify_at at_place name false)
unfolding classify_at
marks-classify_at (in_variables (next ∷ rest)) name exists = ground arith
marks-classify_at (in_lists (next ∷ rest)) name exists = ground arith
marks-classify_at _ name exists = refl

-- Whether the target exists tells a replacement from a restatement, and no more.
marks_same :
    (path : FilePath) (name : Bytes) (exists : Bool)
    → marks (classify_layer_file path name exists) ≡ marks (classify_layer_file path name false)
unfolding classify_layer_file
marks_same path name exists = marks-classify_at (place path) name exists

pub is_marker-beside :
    (dirs : FilePath) (name : Bytes) (exists : Bool)
    → is_marker (beside dirs name) ≡ marks (classify_layer_file (beside dirs name) name exists)
unfolding is_marker
is_marker-beside dirs name exists =
    let last = split_last-beside dirs name in
    let same = marks_same (beside dirs name) name exists in ground arith

-- A file of a folder is none.
make_folder-markers :
    (path : FilePath) (s : Landing) → HasNoMarkers s.files → HasNoMarkers (make_folder path s).files
unfolding make_folder
make_folder-markers path s h p m = elim (Bool-cases (is_folder s.files path)) [
  | inl e ↦ rw e (h p m)
  | inr e ↦ rw e ground (arith, at-put s.files path p folder, h p m)
]

clear_folder-markers :
    (path : FilePath) (s : Landing)
    → HasNoMarkers s.files
    → HasNoMarkers (clear_folder path s).files
unfolding clear_folder
clear_folder-markers path s h p m = elim (Bool-cases (is_folder s.files path)) [
  | inr e ↦ rw e (h p m)
  | inl e ↦ elim (Bool-cases (is_below path p)) [
    | inl d ↦ ground (arith, at-remove_folder_below s.files path p d)
    | inr d ↦ ground (arith, at-remove_folder s.files path p d, h p m)
  ]
]

target_of-unmarked :
    (dirs : FilePath) (name : Bytes) (kind : LayerFileComposition)
    → marks kind ≡ false
    → target_of dirs name kind ≡ beside dirs name
target_of-unmarked dirs name replace_whole h = refl
target_of-unmarked dirs name variable_restate h = refl
target_of-unmarked dirs name list_restate h = refl
target_of-unmarked dirs name _ h = cc

module _ (T : Toml) where
  composed-markers :
      (c : Copying) (s : Landing) (dirs : FilePath) (name text : Bytes) (next : Landing)
      → HasNoMarkers s.files
      → compose_package_layer_file T c.who c.layer s dirs name text ≡ ok next
      → HasNoMarkers next.files
  unfolding compose_package_layer_file
  composed-markers c s dirs name text next h done p m =
      let kind = classify_layer_file (beside dirs name) name (is_file s.files (beside dirs name)) in
      let (edit, there) = compose_as-IsEdit T c.who c.layer s dirs name text kind next done in
      elim (Bool-cases (same_path (target_of dirs name kind) p)) [
        | inr e ↦ ground (arith, edit p e, h p m)
        | inl e ↦
            let target = same_path-eq (target_of dirs name kind) p e in
            elim (Bool-cases (marks kind)) [
              | inl d ↦
                  let old = subst (λ q. is_file s.files q ≡ true) target (there d) in
                  absurd (ground (arith, h p m))
              | inr d ↦
                  let own = sym (target_of-unmarked dirs name kind d) ∙ target in
                  let marked = subst (λ q. is_marker q ≡ true) (sym own) m in
                  absurd (
                    ground (arith, is_marker-beside dirs name (is_file s.files (beside dirs name))))
            ]
      ]

  land_file-markers :
      (c : Copying) (dirs : FilePath) (name text : Bytes) (s next : Landing)
      → HasNoMarkers s.files
      → land_file T c dirs name text s ≡ ok next
      → HasNoMarkers next.files
  land_file-markers c dirs name text s next h done =
      let cleared = clear_folder-markers (beside dirs name) s h in
      elim (land_file-cases T c dirs name text s next done) [
        | inl same ↦ subst HasNoMarkers same cleared
        | inr (claimed, same, composed) ↦
            composed-markers c claimed dirs name text next (subst HasNoMarkers same cleared)
              composed
      ]

module _ (T : Toml) (J : Sidecar) where
  add_provenance-markers :
      (s next : Landing)
      → HasNoMarkers s.files
      → add_provenance T J s ≡ ok next
      → HasNoMarkers next.files
  add_provenance-markers s next h done p m =
      elim (Bool-cases (same_path (provenance_name ∷ []) p)) [
        | inr e ↦ ground (arith, add_provenance-IsEdit T J s next done p e, h p m)
        | inl e ↦
            let own = sym (same_path-eq (provenance_name ∷ []) p e) in
            absurd (unfold is_marker in ground (arith, subst (λ q. is_marker q ≡ true) own m))
      ]

  -- the markers as the code tells them apart
  pub copy_package_layer-HasNoMarkers :
      (layer : Nodes) (include_manifest siblings : Bool) (label : Bytes) (files : Files)
      (provided : Map Bytes) (next : Landing)
      → HasNoMarkers files
      → copy_package_layer T J layer include_manifest label siblings files provided ≡ ok next
      → HasNoMarkers next.files
  copy_package_layer-HasNoMarkers layer include_manifest siblings label files provided next h done =
      let (landed, copied, added) =
        copy_package_layer-steps T J layer include_manifest label siblings files provided next
          done in
      let c = copying T J layer include_manifest label siblings in
      let start : Landing = record { files = files; recorded = []; provided = provided } in
      add_provenance-markers landed next
        (copy_entries-Holds T c (λ d n t. Unit) (λ p. Unit) HasNoMarkers
          (λ dirs name text s after _. land_file-markers T c dirs name text s after)
          (λ path s _. make_folder-markers path s) [] layer (make_folder [] start) landed
          (Every-unit [] layer) (make_folder-markers [] start h) copied)
        added
