-- ===== src/Layer/MarkerShapes.antt =====
-- The paths of the markers of updates and removals, by their names alone.
use rototo.Base.{
  true, false, [], ◌∷◌, ◌++◌, some, ◌≡◌, ◌⊎◌, refl, ap, ◌∙◌, arith, inl, inr, Option-cases, Bytes,
  codes, text_eq, strip_suffix, strip_suffix-append, strip_suffix-eq-some, ends_with,
  append-ends_with,
}
use rototo.Layer.Files.{FilePath}
use rototo.Layer.Places.{
  in_entries, in_variables, in_lists, place, place_data, place_entry, split_last,
}
use rototo.Layer.Classify.{classify_entry, classify_at, classify_layer_file}
use rototo.Layer.Edits.{marks}
use rototo.Layer.Markers.{is_marker}

-- an entry of a catalog with the ending of an update or a removal, or a file under `variables` or `lists`
-- with that of an update
unfoldable pub IsMarker : FilePath → Type 0
IsMarker path =
    ((dir : Bytes) × (middle : FilePath) × (stem : Bytes) × (ending : Bytes) × ((ending
          ≡ codes ".update.toml")
        ⊎ (ending ≡ codes ".deleted.toml"))
      × (path ≡ codes "data" ∷ codes "catalogs" ∷ dir ∷ middle ++ (stem ++ ending) ∷ []))
    ⊎ ((top : Bytes) × (dirs : FilePath) × (stem : Bytes) × ((top ≡ codes "variables")
          ⊎ (top ≡ codes "lists"))
        × (path ≡ top ∷ dirs ++ (stem ++ codes ".update.toml") ∷ []))

pub split_last-append :
    (dirs : FilePath) (name : Bytes) → split_last (dirs ++ name ∷ []) ≡ some (dirs, name)
unfolding split_last
split_last-append [] name = refl
split_last-append (d ∷ []) name = refl
split_last-append (d ∷ e ∷ dirs) name = rw (split_last-append (e ∷ dirs) name) refl

pub split_last-eq-some :
    (path dirs : FilePath) (name : Bytes)
    → split_last path ≡ some (dirs, name)
    → path ≡ dirs ++ name ∷ []
unfolding split_last
split_last-eq-some [] dirs name h = cc
split_last-eq-some (n ∷ []) dirs name h = ground arith
split_last-eq-some (n ∷ m ∷ path) dirs name h = elim (Option-cases (split_last (m ∷ path))) [
  | inl e ↦ absurd (ground arith)
  | inr ((inside, last), e) ↦ ground (arith, split_last-eq-some (m ∷ path) inside last e)
]

entry-marks :
    (stem ending : Bytes)
    → (ending ≡ codes ".update.toml") ⊎ (ending ≡ codes ".deleted.toml")
    → marks (classify_entry (stem ++ ending)) ≡ true
unfolding classify_entry
entry-marks stem ending (inr removal) =
    rw removal (rw (classify_entry, strip_suffix-append stem (codes ".deleted.toml")) refl)
entry-marks stem ending (inl update) =
    rw update
      (elim (Option-cases (strip_suffix (stem ++ codes ".update.toml") (codes ".deleted.toml"))) [
        | inr (other, e) ↦ rw (classify_entry, e) refl
        | inl e ↦ rw (classify_entry, e, strip_suffix-append stem (codes ".update.toml")) refl
      ])

pub marks-entry :
    (name : Bytes)
    → marks (classify_entry name) ≡ true
    → (stem : Bytes) × (ending : Bytes) × ((ending ≡ codes ".update.toml")
        ⊎ (ending ≡ codes ".deleted.toml"))
      × (name ≡ stem ++ ending)
unfolding classify_entry
marks-entry name h = elim (Option-cases (strip_suffix name (codes ".deleted.toml"))) [
  | inr (stem, e) ↦ (
    stem,
    codes ".deleted.toml",
    inr refl,
    strip_suffix-eq-some name (codes ".deleted.toml") stem e,
  )
  | inl e ↦ elim (Option-cases (strip_suffix name (codes ".update.toml"))) [
    | inr (stem, f) ↦ (
      stem,
      codes ".update.toml",
      inl refl,
      strip_suffix-eq-some name (codes ".update.toml") stem f,
    )
    | inl f ↦ absurd (ground arith)
  ]
]

pub is_marker-at :
    (path dirs : FilePath) (name : Bytes)
    → split_last path ≡ some (dirs, name)
    → is_marker path ≡ marks (classify_at (place path) name false)
unfolding is_marker classify_layer_file
is_marker-at path dirs name last = rw (is_marker, last) refl

kept-variable :
    (dirs : FilePath) (name : Bytes)
    → ends_with name (codes ".update.toml") ≡ true
    → (marks (classify_at (in_variables (dirs ++ name ∷ [])) name false) ≡ true)
      × (marks (classify_at (in_lists (dirs ++ name ∷ [])) name false) ≡ true)
unfolding classify_at
kept-variable [] name h = (rw h refl, rw h refl)
kept-variable (d ∷ dirs) name h = (rw h refl, rw h refl)

pub marks-ends_with :
    (path : FilePath) (name : Bytes)
    → (marks (classify_at (in_variables path) name false) ≡ true)
      ⊎ (marks (classify_at (in_lists path) name false) ≡ true)
    → ends_with name (codes ".update.toml") ≡ true
unfolding classify_at
marks-ends_with [] name (inl h) = cc
marks-ends_with [] name (inr h) = cc
marks-ends_with (d ∷ path) name (inl h) = ground arith
marks-ends_with (d ∷ path) name (inr h) = ground arith

pub IsMarker-is_marker : (path : FilePath) → IsMarker path → is_marker path ≡ true
unfolding IsMarker
IsMarker-is_marker path (inl (dir, middle, stem, ending, which, same)) =
    let name = stem ++ ending in
    let last = split_last-append (codes "data" ∷ codes "catalogs" ∷ dir ∷ middle) name in
    let there : place (codes "data" ∷ codes "catalogs" ∷ dir ∷ middle ++ name ∷ [])
        ≡ in_entries (dir ∷ middle) name =
      unfold place in
      unfold place_data in
      unfold text_eq in ap place_entry (split_last-append (dir ∷ middle) name) in
    rw same (
      is_marker-at (codes "data" ∷ codes "catalogs" ∷ dir ∷ middle ++ name ∷ [])
        (codes "data" ∷ codes "catalogs" ∷ dir ∷ middle) name last
      ∙ ap (λ at. marks (classify_at at name false)) there
      ∙ (unfold classify_at in entry-marks stem ending which))
IsMarker-is_marker path (inr (top, dirs, stem, which, same)) =
    let name = stem ++ codes ".update.toml" in
    let (variable, list) = kept-variable dirs name (append-ends_with stem (codes ".update.toml")) in
    let whole =
      is_marker-at (top ∷ dirs ++ name ∷ []) (top ∷ dirs) name
        (split_last-append (top ∷ dirs) name) in
    elim which [
      | inl e ↦
          let there : place (top ∷ dirs ++ name ∷ []) ≡ in_variables (dirs ++ name ∷ []) =
            rw e (unfold place in unfold text_eq in refl) in
          rw same (whole ∙ ap (λ at. marks (classify_at at name false)) there ∙ variable)
      | inr e ↦
          let there : place (top ∷ dirs ++ name ∷ []) ≡ in_lists (dirs ++ name ∷ []) =
            rw e (unfold place in unfold text_eq in refl) in
          rw same (whole ∙ ap (λ at. marks (classify_at at name false)) there ∙ list)
    ]
