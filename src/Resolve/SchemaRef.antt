-- ===== src/Resolve/SchemaRef.antt =====
-- `resolve_schema_ref` and `resolve_relative_schema_uri` of src/resolve/hydrate.rs.
use rototo.Base.{
  Bool, false, ◌||◌, List, [], ◌∷◌, ◌++◌, Option, none, some, Bytes, codes, split, split_once, join,
  strip_prefix, strip_suffix, starts_with, text_eq, is_empty, if◌then◌else◌, Map, lookup,
}
use rototo.Resolve.Engine.{Engine}
use rototo.Resolve.Runtime.{RuntimePackage}
use rototo.Resolve.Evaluate.{get_key}

-- `uri.contains(text)`
abbrev contains_text : Bytes → Bytes → Bool
contains_text [] text = is_empty text
contains_text (c ∷ s) text = starts_with (c ∷ s) text || contains_text s text

-- The segments before the last `/`, or none: the base directory of a catalog.
unfoldable pub namespace : List Bytes → List Bytes
namespace [] = []
namespace (s ∷ []) = []
namespace (s ∷ t ∷ segments) = s ∷ namespace (t ∷ segments)

-- `segments.pop()?`
unfoldable pub pop : List Bytes → Option (List Bytes)
pop [] = none
pop (s ∷ []) = some []
pop (s ∷ t ∷ segments) = elim (pop (t ∷ segments)) [ none ↦ none | some rest ↦ some (s ∷ rest) ]

abbrev pub is_current : Bytes → Bool
is_current segment = is_empty segment || text_eq segment (codes ".")

abbrev pub is_parent : Bytes → Bool
is_parent segment = text_eq segment (codes "..")

abbrev pub walk_segment : List Bytes → Bytes → Option (List Bytes)
walk_segment segments segment =
    if is_current segment
    then some segments
    else if is_parent segment
    then pop segments
    else some (segments ++ segment ∷ [])

unfoldable pub walk : List Bytes → List Bytes → Option (List Bytes)
walk segments [] = some segments
walk segments (segment ∷ target) = elim (walk_segment segments segment) [
  | none ↦ none
  | some next ↦ walk next target
]

unfoldable pub resolve_relative_schema_uri : Bytes → Bytes → Option Bytes
resolve_relative_schema_uri current_catalog uri = elim (strip_suffix uri (codes ".schema.json")) [
  | none ↦ none
  | some target ↦
      if is_empty target || contains_text uri (codes "://") || starts_with uri (codes "/")
      then none
      else elim (walk (namespace (split b'/' current_catalog)) (split b'/' target)) [
        | none ↦ none
        | some segments ↦ if is_empty segments then none else some (join b'/' segments)
      ]
]

abbrev pub cut_reference : Bytes → Bytes × Bytes
cut_reference reference = elim (split_once b'#' reference) [ none ↦ (reference, []) | some p ↦ p ]

module _ (E : Engine) where
  open E use {Json, as_str, pointer}

  -- `Option::and_then` with `as_str`
  abbrev pub str_at : Json → Bytes → Option Bytes
  str_at value key = elim (get_key E value key) [ none ↦ none | some v ↦ as_str v ]

  abbrev pub has_id : Json → Bytes → Bool
  has_id schema uri = elim (str_at schema (codes "$id")) [ none ↦ false | some id ↦ text_eq id uri ]

  unfoldable pub find_schema_id : Map Json → Bytes → Option Bytes
  find_schema_id [] uri = none
  find_schema_id ((catalog, schema) ∷ schemas) uri =
      if has_id schema uri then some catalog else find_schema_id schemas uri

  abbrev pub canonical_catalog : Bytes → Option Bytes
  canonical_catalog uri = elim (strip_prefix uri (codes "rototo://catalogs/")) [
    | none ↦ none
    | some path ↦ strip_suffix path (codes ".schema.json")
  ]

  abbrev pub other_catalog : RuntimePackage E → Bytes → Bytes → Option Bytes
  other_catalog runtime current_catalog uri = elim (canonical_catalog uri) [
    | some catalog ↦ some catalog
    | none ↦ elim (find_schema_id runtime.catalog_schemas uri) [
      | some catalog ↦ some catalog
      | none ↦ resolve_relative_schema_uri current_catalog uri
    ]
  ]

  abbrev pub referenced_catalog : RuntimePackage E → Bytes → Bytes → Option Bytes
  referenced_catalog runtime current_catalog uri =
      if is_empty uri then some current_catalog else other_catalog runtime current_catalog uri

  abbrev schema_at : Bytes → Json → Bytes → Option (Bytes × Json)
  schema_at catalog schema path =
      if is_empty path
      then some (catalog, schema)
      else if starts_with path (codes "/")
      then elim (pointer schema path) [ none ↦ none | some s ↦ some (catalog, s) ]
      else none

  unfoldable pub resolve_schema_ref : RuntimePackage E → Bytes → Bytes → Option (Bytes × Json)
  resolve_schema_ref runtime current_catalog reference =
      let (uri, path) = cut_reference reference in
      elim (referenced_catalog runtime current_catalog uri) [
        | none ↦ none
        | some catalog ↦ elim (lookup runtime.catalog_schemas catalog) [
          | none ↦ none
          | some schema ↦ schema_at catalog schema path
        ]
      ]
