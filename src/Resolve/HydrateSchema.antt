-- ===== src/Resolve/HydrateSchema.antt =====
-- `hydrate_schema_value` and `catalog_entry_view` of src/resolve/hydrate.rs. The recursion has a depth, the
-- frames that the stack of the thread has room for; past it the process ends with a stack overflow.
use rototo.Base.{
  ℕ, zero, suc, List, [], ◌∷◌, Option, none, some, Bytes, codes, Map, Result, ok, err, ◌>>=◌,
}
use rototo.Resolve.Engine.{Engine}
use rototo.Resolve.Runtime.{RototoError, stack_overflow, RuntimePackage}
use rototo.Resolve.Evaluate.{get_key}
use rototo.Resolve.SchemaRef.{resolve_schema_ref, str_at}
use rototo.Resolve.Hydrate.{Stack, Hydration, Rec, hydrate_catalog_entry, hydrate_catalog_reference}

module _ (E : Engine) where
  open E use {Json, Object, array, object, as_array, as_object, get, insert, entries}

  -- the loop over `properties`
  unfoldable pub hydrate_properties :
      Rec E → Bytes → Map Json → Object → Stack → Result RototoError Object
  hydrate_properties rec catalog [] o stack = ok o
  hydrate_properties rec catalog ((key, subschema) ∷ properties) o stack = elim (get o key) [
    | none ↦ hydrate_properties rec catalog properties o stack
    | some child ↦ do
      hydrated ← rec catalog subschema child stack
      hydrate_properties rec catalog properties (insert o key hydrated) stack
  ]

  unfoldable pub hydrate_items :
      Rec E → Bytes → Json → List Json → Stack → Result RototoError (List Json)
  hydrate_items rec catalog items [] stack = ok []
  hydrate_items rec catalog items (value ∷ values) stack = do
    hydrated ← rec catalog items value stack
    rest ← hydrate_items rec catalog items values stack
    ok (hydrated ∷ rest)

  -- the loop over the schemas of `allOf`, `anyOf` or `oneOf`, each on the result of the one before
  unfoldable pub hydrate_each : Rec E → Bytes → List Json → Json → Stack → Hydration E
  hydrate_each rec catalog [] value stack = ok value
  hydrate_each rec catalog (schema ∷ schemas) value stack = do
    hydrated ← rec catalog schema value stack
    hydrate_each rec catalog schemas hydrated stack

  abbrev pub object_at : Json → Bytes → Option Object
  object_at value key = elim (get_key E value key) [ none ↦ none | some v ↦ as_object v ]

  abbrev pub array_at : Json → Bytes → Option (List Json)
  array_at value key = elim (get_key E value key) [ none ↦ none | some v ↦ as_array v ]

  abbrev pub properties_step : Rec E → Bytes → Json → Json → Stack → Hydration E
  properties_step rec catalog schema value stack = elim (object_at schema (codes "properties")) [
    | none ↦ ok value
    | some properties ↦ elim (as_object value) [
      | none ↦ ok value
      | some o ↦ do
        hydrated ← hydrate_properties rec catalog (entries properties) o stack
        ok (object hydrated)
    ]
  ]

  abbrev pub items_step : Rec E → Bytes → Json → Json → Stack → Hydration E
  items_step rec catalog schema value stack = elim (get_key E schema (codes "items")) [
    | none ↦ ok value
    | some items ↦ elim (as_array value) [
      | none ↦ ok value
      | some values ↦ do
        hydrated ← hydrate_items rec catalog items values stack
        ok (array hydrated)
    ]
  ]

  abbrev pub keyword_step : Bytes → Rec E → Bytes → Json → Json → Stack → Hydration E
  keyword_step keyword rec catalog schema value stack = elim (array_at schema keyword) [
    | none ↦ ok value
    | some schemas ↦ hydrate_each rec catalog schemas value stack
  ]

  unfoldable pub hydrate_parts : Rec E → Bytes → Json → Json → Stack → Hydration E
  hydrate_parts rec catalog schema value stack = do
    hydrated ← properties_step rec catalog schema value stack
    hydrated ← items_step rec catalog schema hydrated stack
    hydrated ← keyword_step (codes "allOf") rec catalog schema hydrated stack
    hydrated ← keyword_step (codes "anyOf") rec catalog schema hydrated stack
    keyword_step (codes "oneOf") rec catalog schema hydrated stack

  abbrev pub hydrate_or_parts : Rec E → Bytes → Json → Json → Stack → Option Json → Hydration E
  hydrate_or_parts rec catalog schema value stack none =
      hydrate_parts rec catalog schema value stack
  hydrate_or_parts rec catalog schema value stack (some hydrated) = ok hydrated

  unfoldable pub hydrate_unreferenced :
      Rec E → RuntimePackage E → Bytes → Json → Json → Stack → Hydration E
  hydrate_unreferenced rec runtime catalog schema value stack =
      elim (get_key E schema (codes "x-rototo-ref")) [
        | none ↦ hydrate_parts rec catalog schema value stack
        | some spec ↦ do
          found ← hydrate_catalog_reference E rec runtime spec value stack
          hydrate_or_parts rec catalog schema value stack found
      ]

  -- `$ref`, when it is a string that resolves
  abbrev pub schema_ref : RuntimePackage E → Bytes → Json → Option (Bytes × Json)
  schema_ref runtime catalog schema = elim (str_at E schema (codes "$ref")) [
    | none ↦ none
    | some reference ↦ resolve_schema_ref E runtime catalog reference
  ]

  unfoldable pub hydrate_step : Rec E → RuntimePackage E → Bytes → Json → Json → Stack → Hydration E
  hydrate_step rec runtime catalog schema value stack = elim (schema_ref runtime catalog schema) [
    | some (other, target) ↦ rec other target value stack
    | none ↦ hydrate_unreferenced rec runtime catalog schema value stack
  ]

  unfoldable pub hydrate_schema_value :
      ℕ → RuntimePackage E → Bytes → Json → Json → Stack → Hydration E
  hydrate_schema_value zero runtime catalog schema value stack = err stack_overflow
  hydrate_schema_value (suc n) runtime catalog schema value stack =
      hydrate_step (hydrate_schema_value n runtime) runtime catalog schema value stack

  unfoldable pub catalog_entry_view : ℕ → RuntimePackage E → Bytes → Bytes → Json → Hydration E
  catalog_entry_view depth runtime catalog name entry =
      hydrate_catalog_entry E (hydrate_schema_value depth runtime) runtime catalog name entry []
