-- ===== src/Layer/MarkerPaths.antt =====
-- The update and deleted markers of a layer never stand in a projection, by the names of their paths.
use rototo.Base.{
  Bool, true, false, [], ◌∷◌, ◌++◌, some, ◌≡◌, ◌⊎◌, refl, sym, ap, ◌∙◌, arith, inl, inr, Bool-cases,
  Option-cases, ok, Bytes, codes, Map, text_eq, text_eq-eq, ends_with, ends_with-append,
}
use mathlib.Core.Path.{subst}
use rototo.Toml.{Toml}
use rototo.Layer.Files.{FilePath, Nodes, Files, is_file}
use rototo.Layer.Places.{
  in_entries, in_variables, in_lists, place, place_model, place_data, split_last,
}
use rototo.Layer.Classify.{classify_entry, classify_at, classify_layer_file}
use rototo.Layer.Landing.{Landing}
use rototo.Layer.Copy.{Sidecar, copy_package_layer}
use rototo.Layer.Edits.{marks}
use rototo.Layer.Markers.{is_marker, copy_package_layer-HasNoMarkers}
use rototo.Layer.MarkerShapes.{
  IsMarker, IsMarker-is_marker, split_last-append, split_last-eq-some, marks-entry, is_marker-at,
  marks-ends_with,
}

-- under a place of variables or lists
below_top :
    (top : Bytes) (path dirs : FilePath) (name : Bytes)
    → (top ≡ codes "variables") ⊎ (top ≡ codes "lists")
    → path ≡ dirs ++ name ∷ []
    → ends_with name (codes ".update.toml") ≡ true
    → IsMarker (top ∷ path)
unfolding IsMarker
below_top top path dirs name which same ends =
    let (stem, is_name) = ends_with-append name (codes ".update.toml") ends in
    inr (top, dirs, stem, which, ap (λ p. top ∷ p) (same ∙ ap (λ n. dirs ++ n ∷ []) is_name))

-- under `data`
below_data :
    (m : Bytes) (path dirs : FilePath) (name : Bytes)
    → split_last (m ∷ path) ≡ some (dirs, name)
    → marks (classify_at (place_data (m ∷ path)) name false) ≡ true
    → IsMarker (codes "data" ∷ m ∷ path)
unfolding IsMarker place_data classify_at
below_data m path dirs name last h = elim (Bool-cases (text_eq m (codes "catalogs"))) [
  | inr e ↦ absurd (ground arith)
  | inl e ↦ elim (Option-cases (split_last path)) [
    | inl none_left ↦ absurd (ground arith)
    | inr (([], file), f) ↦ absurd (ground arith)
    | inr ((dir ∷ middle, file), f) ↦
        let parts = split_last-eq-some path (dir ∷ middle) file f in
        let catalogs = text_eq-eq m (codes "catalogs") e in
        let found : split_last (m ∷ path) ≡ some (m ∷ dir ∷ middle, file) =
          ap (λ p. split_last (m ∷ p)) parts ∙ split_last-append (m ∷ dir ∷ middle) file in
        let is_name : file ≡ name = cc in
        let there : place_data (m ∷ path) ≡ in_entries (dir ∷ middle) file =
          rw (place_data, e, f) refl in
        let marked : marks (classify_entry name) ≡ true =
          sym (ap (λ at. marks (classify_at at name false)) there) ∙ h in
        let (stem, ending, which, same) = marks-entry name marked in
        inl (
          dir,
          middle,
          stem,
          ending,
          which,
          ap (λ p. codes "data" ∷ m ∷ p) parts
              ∙ ap (λ c. codes "data" ∷ c ∷ dir ∷ middle ++ file ∷ []) catalogs
              ∙ ap (λ last. codes "data" ∷ codes "catalogs" ∷ dir ∷ middle ++ last ∷ [])
                  (is_name ∙ same),
        )
  ]
]

model-unmarked :
    (path : FilePath) (name : Bytes) → marks (classify_at (place_model path) name false) ≡ false
unfolding place_model classify_at
model-unmarked [] name = refl
model-unmarked (m ∷ path) name = ground arith

-- under the first name of a path
below_first :
    (n m : Bytes) (path dirs : FilePath) (name : Bytes)
    → split_last (m ∷ path) ≡ some (dirs, name)
    → marks (classify_at (place (n ∷ m ∷ path)) name false) ≡ true
    → IsMarker (n ∷ m ∷ path)
unfolding place
below_first n m path dirs name last h =
    let parts = split_last-eq-some (m ∷ path) dirs name last in
    elim (Bool-cases (text_eq n (codes "lists"))) [
      | inl e ↦
          let list : marks (classify_at (in_lists (m ∷ path)) name false) ≡ true = rw e at h in
          below_top n (m ∷ path) dirs name (inr (text_eq-eq n (codes "lists") e)) parts
            (marks-ends_with (m ∷ path) name (inr list))
      | inr no_list ↦ elim (Bool-cases (text_eq n (codes "variables"))) [
        | inl e ↦
            let variable : marks (classify_at (in_variables (m ∷ path)) name false) ≡ true =
              rw (no_list, e) at h in
            below_top n (m ∷ path) dirs name (inl (text_eq-eq n (codes "variables") e)) parts
              (marks-ends_with (m ∷ path) name (inl variable))
        | inr no_variable ↦ elim (Bool-cases (text_eq n (codes "layers"))) [
          | inl e ↦ absurd (unfold classify_at in ground arith)
          | inr no_layer ↦ elim (Bool-cases (text_eq n (codes "model"))) [
            | inl e ↦ absurd (ground (arith, model-unmarked (m ∷ path) name))
            | inr no_model ↦ elim (Bool-cases (text_eq n (codes "data"))) [
              | inr no_data ↦ absurd (unfold classify_at in ground arith)
              | inl e ↦
                  let inside : marks (classify_at (place_data (m ∷ path)) name false) ≡ true =
                    rw (no_list, no_variable, no_layer, no_model, e) at h in
                  subst (λ d. IsMarker (d ∷ m ∷ path)) (sym (text_eq-eq n (codes "data") e))
                    (below_data m path dirs name last inside)
            ]
          ]
        ]
      ]
    ]

is_marker-IsMarker : (path : FilePath) → is_marker path ≡ true → IsMarker path
unfolding is_marker classify_layer_file split_last place place_data place_model classify_at
is_marker-IsMarker [] h = cc
is_marker-IsMarker (n ∷ []) h = absurd (ground arith)
is_marker-IsMarker (n ∷ m ∷ path) h = elim (Option-cases (split_last (m ∷ path))) [
  | inl e ↦ absurd (ground arith)
  | inr ((dirs, name), e) ↦
      let last : split_last (n ∷ m ∷ path) ≡ some (n ∷ dirs, name) = rw (split_last, e) refl in
      below_first n m path dirs name e (sym (is_marker-at (n ∷ m ∷ path) (n ∷ dirs) name last) ∙ h)
]

-- no file stands at the path of a marker
abbrev pub IsUnmarked : Files → Type 0
IsUnmarked files = (path : FilePath) → IsMarker path → is_file files path ≡ false

-- If no file of a projection stands at the path of a marker, which is an entry of a catalog whose
-- name ends with `.update.toml` or `.deleted.toml`, or a file under `variables` or `lists` whose
-- name ends with `.update.toml`, then no file stands at such a path when a layer has landed,
-- whatever the layer holds.
pub copy_package_layer-IsUnmarked :
    (T : Toml) (J : Sidecar) (layer : Nodes) (include_manifest siblings : Bool) (label : Bytes)
    (files : Files) (provided : Map Bytes) (next : Landing)
    → IsUnmarked files
    → copy_package_layer T J layer include_manifest label siblings files provided ≡ ok next
    → IsUnmarked next.files
copy_package_layer-IsUnmarked T J layer include_manifest siblings label files provided next h done
      path marker =
    copy_package_layer-HasNoMarkers T J layer include_manifest siblings label files provided next
      (λ p m. h p (is_marker-IsMarker p m)) done path (IsMarker-is_marker path marker)
