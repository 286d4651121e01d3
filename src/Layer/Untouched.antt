-- ===== src/Layer/Untouched.antt =====
-- A projection whose contract allows nothing is closed to the layer that lands on it.
use rototo.Base.{
  true, false, [], ◌∷◌, Option, some, ◌≡◌, refl, sym, ap, ◌∙◌, arith, ◌⊎◌, inl, inr, strip_suffix,
  join, Bool-cases, Option-cases, ok, Bytes, text_eq_iff,
}
use mathlib.Core.Path.{subst}
use rototo.Toml.{Toml}
use rototo.Governance.Contract.{GovernanceContract}
use rototo.Layer.Files.{FilePath, same_path, Nodes, file, folder, Files, at, file_at, is_file}
use rototo.Layer.FilesLaws.{same_path-eq}
use rototo.Layer.Places.{place, split_last, namespaced}
use rototo.Layer.Classify.{
  LayerFileComposition, replace_whole, variable_restate, list_restate, classify_at,
  classify_layer_file,
}
use rototo.Layer.Landing.{Contributor, Landing, beside}
use rototo.Layer.Siblings.{file_identical}
use rototo.Layer.Compose.{compose_as, compose_package_layer_file}
use rototo.Layer.Enforce.{check_at, check_governed_file}
use rototo.Layer.Edits.{target_name, target_of, marks, replace-at}
use rototo.Layer.Frame.{restate-files, compose_as-IsEdit}
use rototo.Layer.Markers.{split_last-beside, is_marker-beside, HasNoMarkers}
use rototo.Layer.Closed.{IsClosed, is_protected, protected_at, replaced}
use rototo.Layer.ClosedMarkers.{refused_marker}

pub beside_injective :
    (dirs more : FilePath) (name other : Bytes)
    → beside dirs name ≡ beside more other
    → (dirs ≡ more) × (name ≡ other)
beside_injective dirs more name other h =
    let last = sym (split_last-beside dirs name) ∙ ap split_last h ∙ split_last-beside more other in
    (ground (arith, last), ground (arith, last))

pub root_free : (files : Files) (name : Bytes) → is_protected files [] name ≡ false
unfolding is_protected place protected_at namespaced strip_suffix join
root_free files name = ground arith

unmarked-cases :
    (kind : LayerFileComposition)
    → marks kind ≡ false
    → (kind ≡ replace_whole) ⊎ ((kind ≡ variable_restate) ⊎ (kind ≡ list_restate))
unmarked-cases replace_whole h = inl refl
unmarked-cases variable_restate h = inr (inl refl)
unmarked-cases list_restate h = inr (inr refl)
unmarked-cases _ h = cc

unmarked-name :
    (name : Bytes) (kind : LayerFileComposition) → marks kind ≡ false → target_name name kind ≡ name
unmarked-name name replace_whole h = refl
unmarked-name name variable_restate h = refl
unmarked-name name list_restate h = refl
unmarked-name name _ h = cc

file_at-identical :
    (files : Files) (path : FilePath) (text : Bytes)
    → file_identical text (file_at files path) ≡ true
    → at files path ≡ some (file text)
file_at-identical files path text h = elim (Option-cases (at files path)) [
  | inl e ↦ ground arith
  | inr (file other, e) ↦
      let same : text ≡ other = (text_eq_iff text other).0 (ground arith) in rw same e
  | inr (folder, e) ↦ ground arith
]

module _ (T : Toml) (who : Contributor) (layer : Nodes) (s next : Landing) where
  -- A file that is no marker replaces its own path, or leaves everything.
  unmarked-files :
      (dirs : FilePath) (name text : Bytes) (kind : LayerFileComposition)
      → marks kind ≡ false
      → compose_as T who layer s dirs name text kind ≡ ok next
      → ((kind ≡ replace_whole) × (at next.files (beside dirs name) ≡ some (file text)))
        ⊎ (s.files ≡ next.files)
  unfolding compose_as
  unmarked-files dirs name text replace_whole h done =
      inl (refl, replace-at T who s (beside dirs name) text next done)
  unmarked-files dirs name text variable_restate h done =
      inr (restate-files T s (beside dirs name) text _ next done)
  unmarked-files dirs name text list_restate h done =
      inr (restate-files T s (beside dirs name) text _ next done)
  unmarked-files dirs name text _ h done = cc

module _ (T : Toml) (contract : GovernanceContract) (closed : IsClosed contract) (layer : Nodes)
    (files : Files) (clean : HasNoMarkers files) where
  -- Where something is protected, `check_governed_file` goes by the place.
  by_place :
      (dirs : FilePath) (name other : Bytes) (text : Option Bytes)
      → is_protected files dirs other ≡ true
      → check_governed_file T contract layer files dirs name text
        ≡ check_at T contract layer files (place (beside dirs name)) dirs name text
  unfolding check_governed_file
  by_place [] name other text safe = absurd (ground (arith, root_free files other))
  by_place (dir ∷ dirs) name other text safe = refl

  refused_target :
      (s : Landing) (dirs : FilePath) (name text : Bytes)
      → let kind =
          classify_layer_file (beside dirs name) name (is_file s.files (beside dirs name)) in
        check_governed_file T contract layer files dirs name (some text) ≡ ok tt
        → is_protected files dirs (target_name name kind) ≡ true
        → is_file files (target_of dirs name kind) ≡ true
        → at s.files (target_of dirs name kind) ≡ at files (target_of dirs name kind)
        → (kind ≡ replace_whole) ⊎ (marks kind ≡ true)
        → ⊥
  unfolding classify_layer_file is_protected
  refused_target s dirs name text passed safe there same (inr marked) =
      refused_marker T contract closed layer files (place (beside dirs name)) dirs name
        (is_file s.files (beside dirs name)) (some text) refl marked safe there
        (sym (by_place dirs name _ (some text) safe) ∙ passed)
  refused_target s dirs name text passed safe there same (inl whole) =
      let kind = classify_layer_file (beside dirs name) name (is_file s.files (beside dirs name)) in
      let own = unmarked-name name kind (ap marks whole) in
      let safe' = subst (λ n. is_protected files dirs n ≡ true) own safe in
      let there' = subst (λ n. is_file files (beside dirs n) ≡ true) own there in
      let same' = subst (λ n. at s.files (beside dirs n) ≡ at files (beside dirs n)) own same in
      let exists : is_file s.files (beside dirs name) ≡ true = ground (arith, same', there') in
      replaced T contract closed layer files (place (beside dirs name)) dirs name (some text) safe'
        there'
        (subst (λ b. classify_at (place (beside dirs name)) name b ≡ replace_whole) exists whole)
        (sym (by_place dirs name name (some text) safe') ∙ passed)

  -- A file that is accepted changes nothing that is protected.
  pub changed_file :
      (who : Contributor) (s next : Landing) (dirs more : FilePath) (name other text : Bytes)
      → check_governed_file T contract layer files dirs name (some text) ≡ ok tt
      → is_protected files more other ≡ true
      → is_file files (beside more other) ≡ true
      → at s.files (beside more other) ≡ at files (beside more other)
      → compose_package_layer_file T who layer s dirs name text ≡ ok next
      → at next.files (beside more other) ≡ at files (beside more other)
  unfolding compose_package_layer_file
  changed_file who s next dirs more name other text passed safe there same done =
      let kind = classify_layer_file (beside dirs name) name (is_file s.files (beside dirs name)) in
      let p = beside more other in
      let (edit, _) = compose_as-IsEdit T who layer s dirs name text kind next done in
      elim (Bool-cases (same_path (target_of dirs name kind) p)) [
        | inr e ↦ edit p e ∙ same
        | inl e ↦
            let target = same_path-eq (target_of dirs name kind) p e in
            let (d, n) = beside_injective dirs more (target_name name kind) other target in
            let safe' : is_protected files dirs (target_name name kind) ≡ true =
              subst (λ m. is_protected files m (target_name name kind) ≡ true) (sym d)
                (subst (λ o. is_protected files more o ≡ true) (sym n) safe) in
            let there' = subst (λ q. is_file files q ≡ true) (sym target) there in
            let same' = subst (λ q. at s.files q ≡ at files q) (sym target) same in
            elim (Bool-cases (marks kind)) [
              | inl marked ↦
                  absurd (refused_target s dirs name text passed safe' there' same' (inr marked))
              | inr plain ↦
                  elim (unmarked-files T who layer s next dirs name text kind plain done) [
                    | inl (whole, _) ↦
                        absurd
                          (refused_target s dirs name text passed safe' there' same' (inl whole))
                    | inr kept ↦ subst (λ f. at f p ≡ at files p) kept same
                  ]
            ]
      ]

  -- A file that is the same in the projection changes nothing.
  pub identical_file :
      (who : Contributor) (s next : Landing) (dirs : FilePath) (name text : Bytes) (p : FilePath)
      → file_identical text (file_at files (beside dirs name)) ≡ true
      → at s.files p ≡ at files p
      → compose_package_layer_file T who layer s dirs name text ≡ ok next
      → at next.files p ≡ at files p
  unfolding compose_package_layer_file
  identical_file who s next dirs name text p identical same done =
      let kind = classify_layer_file (beside dirs name) name (is_file s.files (beside dirs name)) in
      let (edit, _) = compose_as-IsEdit T who layer s dirs name text kind next done in
      elim (Bool-cases (marks kind)) [
        | inl marked ↦
            let marker = is_marker-beside dirs name (is_file s.files (beside dirs name)) ∙ marked in
            absurd (ground (arith, identical, clean (beside dirs name) marker))
        | inr plain ↦ elim (Bool-cases (same_path (target_of dirs name kind) p)) [
          | inr e ↦ edit p e ∙ same
          | inl e ↦ elim (unmarked-files T who layer s next dirs name text kind plain done) [
            | inr kept ↦ subst (λ f. at f p ≡ at files p) kept same
            | inl (_, written) ↦
                let target =
                  sym (ap (beside dirs) (unmarked-name name kind plain))
                  ∙ same_path-eq (target_of dirs name kind) p e in
                subst (λ q. at next.files q ≡ at files q) target
                  (written ∙ sym (file_at-identical files (beside dirs name) text identical))
          ]
        ]
      ]
