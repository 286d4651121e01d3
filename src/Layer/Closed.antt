-- ===== src/Layer/Closed.antt =====
-- A contract that allows nothing: what an accepted file of a layer can change.
use rototo.Base.{
  Bool, true, false, ◌&&◌, not, List, [], ◌∷◌, Option, none, some, ◌≡◌, ◌≢◌, refl, arith, inl, inr,
  Option-cases, Result-cases, ok, Bytes, codes, text_eq, strip_suffix, ends_with, join, is_empty,
}
use rototo.Toml.{Toml}
use rototo.Governance.Contract.{
  Operation, add, update, delete, GovernanceContract, operation_allowed, check,
}
use rototo.Layer.Files.{FilePath, same_path, Nodes, Files, is_file}
use rototo.Layer.Places.{
  Place, place, in_catalogs, in_context, in_entries, in_lists, in_variables, in_layers, elsewhere,
  split_last, namespaced, variable_id_for_relative, toml_suffix, update_suffix, deleted_suffix,
  schema_suffix,
}
use rototo.Layer.Classify.{replace_whole, classify_at}
use rototo.Layer.Landing.{beside}
use rototo.Layer.Siblings.{samples_of}
use rototo.Layer.Declared.{context_schema, list_file, governing_catalog, entry_name}
use rototo.Layer.Enforce.{
  as_governed, check_at, check_removal, check_update, check_entry_file, toml_top_level_keys,
}

abbrev pub IsClosed : GovernanceContract → Type 0
IsClosed c = (kind id : Bytes) (o : Operation) → operation_allowed c kind id o ≡ false

abbrev pub is_some {ℓ} : {A : Type ℓ} → Option A → Bool
is_some none = false
is_some (some a) = true

abbrev is_governed_sample : Files → Option Bytes → Bool
is_governed_sample files none = false
is_governed_sample files (some id) = is_file files (context_schema id)

abbrev pub is_named : Option Bytes → FilePath → Bool
is_named none path = false
is_named (some id) path = same_path (list_file id) path

abbrev is_lint : FilePath → Bool
is_lint (dir ∷ []) = text_eq dir (codes "lint")
is_lint _ = false

-- The path is that of an entity's file: a schema, a sample, the list that its id names, an entry of
-- a catalog with a schema, a variable, a layer of traffic, or a lint rule.
unfoldable pub protected_at : Files → Place → FilePath → Bytes → Bool
unfolding namespaced variable_id_for_relative governing_catalog split_last
protected_at files (in_catalogs rest) dirs name = is_some (namespaced rest schema_suffix)
protected_at files (in_context rest) dirs name = elim (samples_of rest) [
  | some (parts, sample) ↦ is_governed_sample files (namespaced parts (codes "-samples"))
  | none ↦ is_some (namespaced rest schema_suffix)
]
protected_at files (in_lists rest) dirs name =
    ends_with name toml_suffix && is_named (namespaced rest toml_suffix) (beside dirs name)
protected_at files (in_entries middle last) dirs name =
    ends_with name toml_suffix && is_some (governing_catalog files [] middle)
protected_at files (in_variables rest) dirs name =
    is_some (variable_id_for_relative (beside dirs name)) && not (is_empty rest)
protected_at files (in_layers rest) dirs name = is_some (namespaced rest toml_suffix)
protected_at files elsewhere dirs name = is_lint dirs

unfoldable pub is_protected : Files → FilePath → Bytes → Bool
unfolding place protected_at
is_protected files dirs name = protected_at files (place (beside dirs name)) dirs name

module _ (T : Toml) (contract : GovernanceContract) (closed : IsClosed contract) where
  pub refused :
      (kind id : Bytes) (o : Operation) (entry : Option Bytes) (fields : List Bytes)
      → as_governed T (check contract kind id o entry fields) ≢ ok tt
  unfolding check
  refused kind id o entry fields h = ground (arith, closed kind id o)

  module _ (layer : Nodes) (files : Files) where
    refused_removal :
        (catalog : Bytes) (namespace dirs : FilePath) (name stem : Bytes)
        → check_removal T contract layer files catalog namespace dirs name stem ≢ ok tt
    unfolding check_removal
    refused_removal catalog namespace dirs name stem h =
        ground
          (arith, h, refused (codes "catalog") catalog delete (some (entry_name namespace stem)) [])

    refused_update :
        (catalog : Bytes) (namespace dirs : FilePath) (name stem : Bytes) (text : Option Bytes)
        → check_update T contract layer files catalog namespace dirs name stem text ≢ ok tt
    unfolding check_update
    refused_update catalog namespace dirs name stem text h =
        elim (Result-cases (toml_top_level_keys T (beside dirs name) text)) [
          | inr (_, e) ↦ ground (arith, h)
          | inl (fields, e) ↦ ground (
            arith,
            h,
            refused (codes "catalog") catalog update (some (entry_name namespace stem)) fields,
          )
        ]

    -- A file of an entry is refused, if its name is that of a file that is there or of a marker.
    pub refused_entry :
        (found : FilePath × FilePath) (dirs : FilePath) (name : Bytes) (text : Option Bytes)
        → ends_with name toml_suffix ≡ true
        → check_entry_file T contract layer files (some found) dirs name text ≢ ok tt
    unfolding check_entry_file ends_with
    refused_entry (catalog, namespace) dirs name text toml h =
        elim (Option-cases (strip_suffix name deleted_suffix)) [
          | inr (stem, e) ↦
              ground (arith, h, refused_removal (join b'/' catalog) namespace dirs name stem)
          | inl e ↦ elim (Option-cases (strip_suffix name update_suffix)) [
            | inr (stem, d) ↦
                ground (arith, h, refused_update (join b'/' catalog) namespace dirs name stem text)
            | inl d ↦ ground (arith, h, refused (codes "catalog") (join b'/' catalog) add none [])
          ]
        ]

    -- A file that replaces what stands at its own path.
    pub replaced :
        (at_place : Place) (dirs : FilePath) (name : Bytes) (text : Option Bytes)
        → protected_at files at_place dirs name ≡ true
        → is_file files (beside dirs name) ≡ true
        → classify_at at_place name true ≡ replace_whole
        → check_at T contract layer files at_place dirs name text ≢ ok tt
    unfolding protected_at check_at classify_at strip_suffix join
    replaced (in_catalogs rest) dirs name text safe there kind h = ground arith
    replaced (in_context rest) dirs name text safe there kind h =
        elim (Option-cases (samples_of rest)) [
          | inl e ↦ ground arith
          | inr ((parts, sample), e) ↦ elim (Option-cases (namespaced parts (codes "-samples"))) [
            | inl d ↦ ground arith
            | inr (id, d) ↦ ground arith
          ]
        ]
    replaced (in_lists []) dirs name text safe there kind h =
        let blank : namespaced [] toml_suffix ≡ none = unfold namespaced in refl in ground arith
    replaced (in_lists (next ∷ rest)) dirs name text safe there kind h = ground arith
    replaced (in_entries middle last) dirs name text safe there kind h =
        elim (Option-cases (governing_catalog files [] middle)) [
          | inl e ↦ ground arith
          | inr (found, e) ↦
              let toml : ends_with name toml_suffix ≡ true = ground arith in
              ground (arith, h, refused_entry found dirs name text toml)
        ]
    replaced (in_variables []) dirs name text safe there kind h = ground arith
    replaced (in_variables (next ∷ rest)) dirs name text safe there kind h =
        elim (Option-cases (variable_id_for_relative (beside dirs name))) [
          | inl e ↦ ground arith
          | inr (id, e) ↦ ground arith
        ]
    replaced (in_layers rest) dirs name text safe there kind h =
        elim (Option-cases (namespaced rest toml_suffix)) [
          | inl e ↦ ground arith
          | inr (id, e) ↦ ground (arith, h, refused (codes "layer") id update none [])
        ]
    replaced elsewhere [] name text safe there kind h = cc
    replaced elsewhere (dir ∷ []) name text safe there kind h = ground arith
    replaced elsewhere (dir ∷ next ∷ dirs) name text safe there kind h = cc
