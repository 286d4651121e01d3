-- ===== src/Resolve/Query.antt =====
-- src/resolve.rs: `resolve_catalog_query` and `resolve_query_trace`. `sort_by` is the stable sort of the
-- standard library, written as insertion.
use rototo.Base.{
  ℕ, zero, suc, Bool, true, false, not, ◌&&◌, ◌||◌, List, [], ◌∷◌, ◌++◌, Option, none, some, Bytes,
  ltb, if◌then◌else◌, length, is_empty, map, Map, lookup, ok_or, ◌==◌,
}
use rototo.Resolve.Engine.{Engine, Comparison, less, same, greater}
use rototo.Resolve.Runtime.{
  no_entries, no_match, not_comparable, many_matches, literal_source, RuntimeSelectedValue, catalog,
  catalog_array, RuntimeQuery, Expression, VariableResolutionTrace,
}
use rototo.Resolve.Ask.{Ask, give, fail, ◌>>=◌, give_result}
use rototo.Resolve.Evaluate.{Session, evaluate_bool, evaluate_value}
use rototo.Resolve.Hydrate.{with_id}
use rototo.Resolve.HydrateSchema.{catalog_entry_view}
use rototo.Resolve.Trace.{value_of, selected_value_source, resolution_of}

-- `Ord` of `str`: by bytes
unfoldable pub compare_bytes : Bytes → Bytes → Comparison
compare_bytes [] [] = same
compare_bytes [] (y ∷ ys) = less
compare_bytes (x ∷ xs) [] = greater
compare_bytes (x ∷ xs) (y ∷ ys) =
    let rest = compare_bytes xs ys in if x == y then rest else if ltb x y then less else greater

module _ {A : Type 0} where
  unfoldable pub take : ℕ → List A → List A
  take zero xs = []
  take (suc n) [] = []
  take (suc n) (x ∷ xs) = x ∷ take n xs

  unfoldable pub reverse : List A → List A
  reverse [] = []
  reverse (x ∷ xs) = reverse xs ++ x ∷ []

module _ (E : Engine) where
  open E use {Json, null, array, as_str, is_number, compare_numbers, to_text}

  abbrev pub Matches : Type 0
  Matches = List (Bytes × Json)

  -- a sort key, the entry's name and the entry
  abbrev pub Keyed : Type 0
  Keyed = List (Json × Bytes × Json)

  abbrev is_string : Json → Bool
  is_string value = elim (as_str value) [ none ↦ false | some s ↦ true ]

  unfoldable pub query_sort_keys_comparable : Json → Json → Bool
  query_sort_keys_comparable left right =
      (is_number left && is_number right) || (is_string left && is_string right)

  abbrev or_same : Option Comparison → Comparison
  or_same none = same
  or_same (some c) = c

  abbrev compare_strings : Option Bytes → Option Bytes → Comparison
  compare_strings (some left) (some right) = compare_bytes left right
  compare_strings _ _ = same

  unfoldable pub compare_query_sort_keys : Json → Json → Comparison
  compare_query_sort_keys left right =
      if is_number left && is_number right
      then or_same (compare_numbers left right)
      else compare_strings (as_str left) (as_str right)

  -- the filter of one entry
  abbrev pub keeps : Session E → RuntimeQuery E → Json → Ask Json Bool
  keeps s query view = elim query.filter [
    | none ↦ give true
    | some filter ↦ evaluate_bool E s filter (some view)
  ]

  unfoldable pub filter_entries : Session E → RuntimeQuery E → Map Json → Ask Json Matches
  filter_entries s query [] = give []
  filter_entries s query ((name, entry) ∷ entries) = do
    view ← give_result (catalog_entry_view E s.depth s.runtime query.catalog_id name entry)
    keep ← keeps s query view
    rest ← filter_entries s query entries
    give (if keep then (name, view) ∷ rest else rest)

  unfoldable pub key_entries : Session E → Expression E → Matches → Ask Json Keyed
  key_entries s sort [] = give []
  key_entries s sort ((name, view) ∷ matches) = do
    key ← evaluate_value E s sort (some view)
    rest ← key_entries s sort matches
    give ((key, name, view) ∷ rest)

  -- the loop over `keyed.windows(2)`
  unfoldable pub check_keys : Bytes → Keyed → Ask Json (Unit {0})
  check_keys id [] = give tt
  check_keys id (a ∷ []) = give tt
  check_keys id (a ∷ b ∷ keyed) =
      let rest = check_keys id (b ∷ keyed) in
      if query_sort_keys_comparable a.0 b.0
      then rest
      else fail (not_comparable id (to_text a.0) (to_text b.0))

  -- Equal keys keep their order: an item goes behind those it is not less than.
  unfoldable pub insert_keyed : Json × Bytes × Json → Keyed → Keyed
  insert_keyed item [] = item ∷ []
  insert_keyed item (other ∷ keyed) = elim (compare_query_sort_keys other.0 item.0) [
    | greater ↦ item ∷ other ∷ keyed
    | _ ↦ other ∷ insert_keyed item keyed
  ]

  -- one item after the other into the sorted ones
  unfoldable pub sort_into : Keyed → Keyed → Keyed
  sort_into sorted [] = sorted
  sort_into sorted (item ∷ keyed) = sort_into (insert_keyed item sorted) keyed

  abbrev pub sort_keyed : Keyed → Keyed
  sort_keyed keyed = sort_into [] keyed

  abbrev pub drop_keys : Keyed → Matches
  drop_keys keyed = map (λ (key, name, view). (name, view)) keyed

  abbrev pub order_keyed : Bool → Keyed → Keyed
  order_keyed descending keyed = if descending then reverse (sort_keyed keyed) else sort_keyed keyed

  abbrev pub sort_by : Session E → Bytes → Bool → Option (Expression E) → Matches → Ask Json Matches
  sort_by s id descending none matches = give matches
  sort_by s id descending (some sort) matches = do
    keyed ← key_entries s sort matches
    checked ← check_keys id keyed
    give (drop_keys (order_keyed descending keyed))

  unfoldable pub sort_matches : Session E → Bytes → RuntimeQuery E → Matches → Ask Json Matches
  sort_matches s id query matches = sort_by s id query.descending query.sort matches

  abbrev pub truncate : Option ℕ → Matches → Matches
  truncate none matches = matches
  truncate (some limit) matches = take limit matches

  abbrev pub raw_entry_with_id : Map Json → Bytes → Json
  raw_entry_with_id entries name =
      with_id E name (elim (lookup entries name) [ none ↦ null | some entry ↦ entry ])

  abbrev pub names_of : Matches → List Bytes
  names_of matches = map (λ (name, view). name) matches

  abbrev pub has_sort : Option (Expression E) → Bool
  has_sort none = false
  has_sort (some sort) = true

  -- the value of a variable of type `catalog=<id>`
  unfoldable pub select_single :
      Bytes → RuntimeQuery E → Map Json → Matches → Ask Json (RuntimeSelectedValue E)
  select_single id query entries [] = give_result (ok_or query.default (no_match id))
  select_single id query entries ((name, view) ∷ matches) =
      if not (is_empty matches) && not (has_sort query.sort)
      then fail (many_matches (suc (length matches)) id)
      else give (catalog query.catalog_id name (raw_entry_with_id entries name))

  abbrev pub matches_value : RuntimeQuery E → Map Json → Matches → RuntimeSelectedValue E
  matches_value query entries matches =
      let names = names_of matches in
      catalog_array query.catalog_id names (array (map (raw_entry_with_id entries) names))

  -- the value of a variable of type `array<catalog=<id>>`
  unfoldable pub select_array : RuntimeQuery E → Map Json → Matches → RuntimeSelectedValue E
  select_array query entries [] = elim query.default [
    | none ↦ matches_value query entries []
    | some default ↦ default
  ]
  select_array query entries (m ∷ matches) = matches_value query entries (m ∷ matches)

  unfoldable pub select_matches :
      Bytes → RuntimeQuery E → Map Json → Matches → Ask Json (RuntimeSelectedValue E)
  select_matches id query entries matches =
      if query.single
      then select_single id query entries matches
      else give (select_array query entries matches)

  unfoldable pub resolve_catalog_query :
      Session E → Bytes → RuntimeQuery E → Ask Json (RuntimeSelectedValue E)
  resolve_catalog_query s id query = do
    entries ←
        give_result
          (ok_or (lookup s.runtime.catalog_entries query.catalog_id) (no_entries query.catalog_id))
    matches ← filter_entries s query entries
    matches ← sort_matches s id query matches
    select_matches id query entries (truncate query.limit matches)

  abbrev pub query_trace_of :
      Bytes → Option (RuntimeSelectedValue E) → RuntimeSelectedValue E → VariableResolutionTrace E
  query_trace_of id default selected = record {
    resolution = resolution_of E id selected;
    default_value = elim default [ none ↦ null | some d ↦ value_of E d ];
    default_source = elim default [ none ↦ literal_source | some d ↦ selected_value_source E d ];
    rules = [];
    provenance = none;
    allocation = none;
  }

  unfoldable pub resolve_query_trace :
      Session E → Bytes → RuntimeQuery E → Ask Json (VariableResolutionTrace E)
  resolve_query_trace s id query = do
    selected ← resolve_catalog_query s id query
    give (query_trace_of id query.default selected)
