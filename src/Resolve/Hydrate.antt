-- ===== src/Resolve/Hydrate.antt =====
-- `catalog_entry_view` of src/resolve/hydrate.rs. The set `stack` is passed down: each call of the source
-- removes what it inserted. `rec` is `hydrate_schema_value`, at the next smaller depth.
use rototo.Base.{
  Bool, true, false, ◌&&◌, ◌||◌, List, [], ◌∷◌, Option, none, some, any, Bytes, codes, split_once,
  strip_prefix, starts_with, text_eq, is_empty, if◌then◌else◌, lookup, Result, ok, ◌>>=◌,
}
use rototo.Resolve.Engine.{Engine}
use rototo.Resolve.Runtime.{RototoError, RuntimePackage}
use rototo.Resolve.SchemaRef.{str_at}

abbrev pub Stack : Type 0
Stack = List (Bytes × Bytes)

unfoldable pub on_stack : Stack → Bytes → Bytes → Bool
on_stack stack catalog entry = any (λ (c, e). text_eq c catalog && text_eq e entry) stack

abbrev pub is_json_pointer : Bytes → Bool
is_json_pointer value = is_empty value || starts_with value (codes "/")

abbrev pub nonempty : Bytes → Option Bytes
nonempty text = if is_empty text then none else some text

unfoldable pub split_catalog_entry_ref : Bytes → Option (Bytes × Option Bytes)
split_catalog_entry_ref value = elim (split_once b'#' value) [
  | none ↦ if is_empty value then none else some (value, none)
  | some (entry, pointer) ↦
      if is_empty entry
      then none
      else if is_json_pointer pointer
      then some (entry, nonempty pointer)
      else none
]

module _ (E : Engine) where
  open E use {
    Json, string, array, object, as_bool, as_str, as_array, as_object, get, insert, entries,
    pointer,
  }

  abbrev pub Hydration : Type 0
  Hydration = Result RototoError Json

  abbrev pub Rec : Type 0
  Rec = Bytes → Json → Json → Stack → Hydration

  -- the value with the key `id` set, when it is an object
  unfoldable pub with_id : Bytes → Json → Json
  with_id name value = elim (as_object value) [
    | none ↦ value
    | some o ↦ object (insert o (codes "id") (string name))
  ]

  unfoldable pub hydrate_catalog_entry :
      Rec → RuntimePackage E → Bytes → Bytes → Json → Stack → Hydration
  hydrate_catalog_entry rec runtime catalog name entry stack =
      let value = with_id name entry in
      elim (on_stack stack catalog name) [
        | true ↦ ok value
        | false ↦ elim (lookup runtime.catalog_schemas catalog) [
          | none ↦ ok value
          | some schema ↦ rec catalog schema value ((catalog, name) ∷ stack)
        ]
      ]

  unfoldable pub find_entry : RuntimePackage E → Bytes → Bytes → Option Json
  find_entry runtime catalog entry = elim (lookup runtime.catalog_entries catalog) [
    | none ↦ none
    | some items ↦ lookup items entry
  ]

  abbrev pub at_pointer : Option Bytes → Json → Json → Json
  at_pointer none fallback hydrated = hydrated
  at_pointer (some path) fallback hydrated = elim (pointer hydrated path) [
    | none ↦ fallback
    | some v ↦ v
  ]

  unfoldable pub hydrate_catalog_reference_target :
      Rec
      → RuntimePackage E
      → Bytes
      → Bytes
      → Option Bytes
      → Json
      → Stack
      → Result RototoError (Option Json)
  hydrate_catalog_reference_target rec runtime catalog entry path fallback stack =
      elim (on_stack stack catalog entry) [
        | true ↦ ok (some fallback)
        | false ↦ elim (find_entry runtime catalog entry) [
          | none ↦ ok none
          | some entry_value ↦ do
            hydrated ← hydrate_catalog_entry rec runtime catalog entry entry_value stack
            ok (some (at_pointer path fallback hydrated))
        ]
      ]

  -- the object form of a reference: its catalog, entry and pointer
  abbrev pub object_reference : Json → Option (Bytes × Bytes × Option Bytes)
  object_reference value = elim (str_at E value (codes "catalog")) [
    | none ↦ none
    | some catalog ↦ elim (str_at E value (codes "entry")) [
      | none ↦ none
      | some entry ↦ some (catalog, entry, str_at E value (codes "pointer"))
    ]
  ]

  abbrev add_target : Option Bytes → List Bytes → List Bytes
  add_target none rest = rest
  add_target (some text) rest = elim (strip_prefix text (codes "catalog=")) [
    | none ↦ rest
    | some catalog ↦ catalog ∷ rest
  ]

  abbrev catalog_targets : List Json → List Bytes
  catalog_targets [] = []
  catalog_targets (spec ∷ specs) = add_target (as_str spec) (catalog_targets specs)

  unfoldable pub target_catalogs : Json → Option (List Bytes)
  target_catalogs spec = elim (as_str spec) [
    | some target ↦ elim (strip_prefix target (codes "catalog=")) [
      | none ↦ none
      | some c ↦ some (c ∷ [])
    ]
    | none ↦ elim (as_array spec) [ none ↦ none | some specs ↦ some (catalog_targets specs) ]
  ]

  -- the first of the catalogs that has the entry
  unfoldable pub find_target : RuntimePackage E → Bytes → List Bytes → Option Bytes
  find_target runtime entry [] = none
  find_target runtime entry (catalog ∷ catalogs) = elim (find_entry runtime catalog entry) [
    | none ↦ find_target runtime entry catalogs
    | some value ↦ some catalog
  ]

  -- the entry and pointer that a string names, and the catalog it is found in
  abbrev pub string_reference :
      RuntimePackage E → List Bytes → Json → Option (Bytes × Bytes × Option Bytes)
  string_reference runtime catalogs value = elim (as_str value) [
    | none ↦ none
    | some target ↦ elim (split_catalog_entry_ref target) [
      | none ↦ none
      | some (entry, path) ↦ elim (find_target runtime entry catalogs) [
        | none ↦ none
        | some catalog ↦ some (catalog, entry, path)
      ]
    ]
  ]

  unfoldable pub reference_of :
      RuntimePackage E → Json → Json → Option (Bytes × Bytes × Option Bytes)
  reference_of runtime spec value = elim (as_bool spec) [
    | some true ↦ object_reference value
    | _ ↦ elim (target_catalogs spec) [
      | none ↦ none
      | some catalogs ↦ string_reference runtime catalogs value
    ]
  ]

  unfoldable pub hydrate_catalog_reference :
      Rec → RuntimePackage E → Json → Json → Stack → Result RototoError (Option Json)
  hydrate_catalog_reference rec runtime spec value stack = elim (reference_of runtime spec value) [
    | none ↦ ok none
    | some (catalog, entry, path) ↦
        hydrate_catalog_reference_target rec runtime catalog entry path value stack
  ]
