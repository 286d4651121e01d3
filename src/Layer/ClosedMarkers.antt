-- ===== src/Layer/ClosedMarkers.antt =====
-- A contract that allows nothing refuses every marker over a file that is protected.
use rototo.Base.{
  Bool, true, false, [], ◌∷◌, ◌++◌, Option, none, some, ◌≡◌, ◌≢◌, refl, sym, ap, ◌∙◌, arith, inl,
  inr, Option-cases, ok, Bytes, codes, strip_suffix, strip_suffix-eq-some, ends_with, is_empty,
}
use mathlib.Core.Path.{subst}
use rototo.Toml.{Toml}
use rototo.Governance.Contract.{update, GovernanceContract}
use rototo.Layer.Files.{FilePath, Nodes, Files, is_file}
use rototo.Layer.FilesLaws.{same_path-eq}
use rototo.Layer.Places.{
  Place, place, in_entries, in_lists, in_variables, namespaced, toml_stem, toml_suffix,
  update_suffix, deleted_suffix, without, file_stem_of,
}
use rototo.Layer.Classify.{list_update, list_restate, classify_at, classify_marked, classify_entry}
use rototo.Layer.Landing.{beside, toml_beside}
use rototo.Layer.Siblings.{is_marked}
use rototo.Layer.Declared.{list_file, governing_catalog}
use rototo.Layer.Enforce.{check_at}
use rototo.Layer.Edits.{marks, target_name, target_of}
use rototo.Layer.Markers.{split_last-beside}
use rototo.Layer.Shapes.{
  marked-toml, place-entries, place-lists, place-variables, namespaced-beside,
}
use rototo.Layer.Closed.{IsClosed, refused, refused_entry, protected_at, is_protected, is_named}

-- a marker of an entry has a name that ends in `.toml`
entry_marker-toml :
    (name : Bytes) → marks (classify_entry name) ≡ true → ends_with name toml_suffix ≡ true
unfolding classify_entry ends_with
entry_marker-toml name h = elim (Option-cases (strip_suffix name deleted_suffix)) [
  | inr (stem, e) ↦ ground (arith, marked-toml name stem (codes ".deleted") e)
  | inl e ↦ elim (Option-cases (strip_suffix name update_suffix)) [
    | inr (stem, d) ↦ ground (arith, marked-toml name stem (codes ".update") d)
    | inl d ↦ ground arith
  ]
]

is_empty-append : (r t : Bytes) → t ≢ [] → is_empty (r ++ t) ≡ false
is_empty-append [] [] h = absurd (h refl)
is_empty-append [] (c ∷ t) h = refl
is_empty-append (c ∷ r) t h = refl

update_marker-stem :
    (name : Bytes)
    → ends_with name update_suffix ≡ true
    → (stem : Bytes) × (toml_stem name ≡ some stem)
unfolding ends_with
update_marker-stem name h = elim (Option-cases (strip_suffix name update_suffix)) [
  | inl e ↦ ground arith
  | inr (r, e) ↦ (
    r ++ codes ".update",
    ground (
      arith,
      marked-toml name r (codes ".update") e,
      is_empty-append r (codes ".update") (λ c. cc),
    ),
  )
]

module _ (T : Toml) (contract : GovernanceContract) (closed : IsClosed contract) (layer : Nodes)
    (files : Files) where
  -- the marker of an entry, in a directory where an entry is protected
  marked_entry :
      (dirs : FilePath) (name other : Bytes) (middle : FilePath) (last : Bytes)
      (text : Option Bytes)
      → place (beside dirs name) ≡ in_entries middle last
      → marks (classify_entry name) ≡ true
      → is_protected files dirs other ≡ true
      → check_at T contract layer files (in_entries middle last) dirs name text ≢ ok tt
  unfolding check_at is_protected protected_at
  marked_entry dirs name other middle last text at_place marked safe h =
      let at_other = place-entries dirs name other middle last at_place in
      elim (Option-cases (governing_catalog files [] middle)) [
        | inl e ↦ ground arith
        | inr (found, e) ↦ ground (
          arith,
          h,
          refused_entry T contract closed layer files found dirs name text
              (entry_marker-toml name marked),
        )
      ]

  marked_variable :
      (dirs : FilePath) (name : Bytes) (next : Bytes) (rest : FilePath) (text : Option Bytes)
      → place (beside dirs name) ≡ in_variables (next ∷ rest)
      → ends_with name update_suffix ≡ true
      → is_file files (toml_beside dirs (file_stem_of name)) ≡ true
      → check_at T contract layer files (in_variables (next ∷ rest)) dirs name text ≢ ok tt
  unfolding check_at
  marked_variable dirs name next rest text at_place marked there h =
      let (stem, t) = update_marker-stem name marked in
      let (id, named) = place-variables dirs name next rest stem at_place t in
      ground (arith, h, refused T contract closed (codes "variable") id update none [])

  marked_list :
      (dirs : FilePath) (name stem : Bytes) (next : Bytes) (rest : FilePath) (text : Option Bytes)
      → place (beside dirs name) ≡ in_lists (next ∷ rest)
      → strip_suffix name update_suffix ≡ some stem
      → is_protected files dirs (stem ++ toml_suffix) ≡ true
      → is_file files (toml_beside dirs stem) ≡ true
      → check_at T contract layer files (in_lists (next ∷ rest)) dirs name text ≢ ok tt
  unfolding check_at is_protected protected_at
  marked_list dirs name stem next rest text at_place marked safe there h =
      let (d, shape, others) = place-lists dirs name next rest at_place in
      let at_other = others (stem ++ toml_suffix) in
      let whole = strip_suffix-eq-some name update_suffix stem marked in
      let other = beside d (stem ++ toml_suffix) in
      let named : is_named (namespaced other toml_suffix) (toml_beside dirs stem) ≡ true =
        ground (arith, safe, at_other) in
      elim (Option-cases (namespaced other toml_suffix)) [
        | inl e ↦ ground arith
        | inr (id, e) ↦
            let path = same_path-eq (list_file id) (toml_beside dirs stem) (ground arith) in
            let listed : is_file files (list_file id) ≡ true =
              subst (λ p. is_file files p ≡ true) (sym path) there in
            let here : namespaced (next ∷ rest) update_suffix ≡ some id =
              rw (shape, whole)
                (namespaced-beside d stem update_suffix
                  ∙ sym (namespaced-beside d stem toml_suffix)
                  ∙ e) in
            let update_name : ends_with name update_suffix ≡ true =
              unfold ends_with in ground (arith, marked) in
            let is_here : is_marked (next ∷ rest) ≡ true =
              rw shape (ground (arith, split_last-beside d name)) in
            ground (arith, h, refused T contract closed (codes "list") id update none [])
      ]

  -- a marker about a file that is protected
  pub refused_marker :
      (at_place : Place) (dirs : FilePath) (name : Bytes) (exists : Bool) (text : Option Bytes)
      → place (beside dirs name) ≡ at_place
      → marks (classify_at at_place name exists) ≡ true
      → is_protected files dirs (target_name name (classify_at at_place name exists)) ≡ true
      → is_file files (target_of dirs name (classify_at at_place name exists)) ≡ true
      → check_at T contract layer files at_place dirs name text ≢ ok tt
  unfolding classify_at
  refused_marker (in_entries middle last) dirs name exists text at_place marked safe there =
      marked_entry dirs name (target_name name (classify_entry name)) middle last text at_place
        marked safe
  refused_marker (in_variables (next ∷ rest)) dirs name exists text at_place marked safe there =
      let update_name : ends_with name update_suffix ≡ true = ground arith in
      marked_variable dirs name next rest text at_place update_name (ground (arith, there))
  refused_marker (in_lists (next ∷ rest)) dirs name exists text at_place marked safe there =
      let update_name : ends_with name update_suffix ≡ true = ground arith in
      elim (Option-cases (strip_suffix name update_suffix)) [
        | inl e ↦ absurd (unfold ends_with in ground arith)
        | inr (stem, e) ↦
            let kind : classify_marked name exists list_update list_restate ≡ list_update =
              ground arith in
            let rest_of_name : without name update_suffix ≡ stem = ground (arith, e) in
            let same : target_name name (classify_marked name exists list_update list_restate)
                ≡ stem ++ toml_suffix =
              rw kind (ap (λ t. t ++ toml_suffix) rest_of_name) in
            marked_list dirs name stem next rest text at_place e
              (subst (λ t. is_protected files dirs t ≡ true) same safe)
              (subst (λ t. is_file files (beside dirs t) ≡ true) same there)
      ]
  refused_marker _ dirs name exists text at_place marked safe there = cc
