-- ===== src/Resolve/QueryResults.antt =====
-- `resolve_catalog_query` of src/resolve.rs: the entries that a query selects.
use rototo.Base.{
  List, map, suc, true, false, [], ◌∷◌, Option, none, some, ◌≡◌, ◌⊎◌, inl, inr, refl, sym, ap, ◌∙◌,
  Bytes, ok, Map, lookup, ok_or, ok_or-eq-ok, length, is_empty, Bool-cases,
}
use rototo.Resolve.Engine.{Engine}
use rototo.Resolve.Runtime.{
  RuntimeSelectedValue, literal, catalog, catalog_array, RuntimeQuery, query_resolution,
  VariableResolutionTrace, no_match, no_entries, many_matches,
}
use rototo.Resolve.Ask.{Ask, give, ◌>>=◌, give_result}
use rototo.Resolve.Evaluate.{Session}
use rototo.Resolve.Query.{
  Matches, filter_entries, sort_matches, truncate, raw_entry_with_id, select_single, matches_value,
  select_array, select_matches, resolve_catalog_query, query_trace_of, resolve_query_trace,
  has_sort,
}
use rototo.Resolve.State.{trace_variable_unchecked}
use rototo.Resolve.Answers.{Answers-bind, Answers-give}
use rototo.Resolve.Memo.{Answers}
use rototo.Resolve.Rules.{with_provenance, method-trace}
use rototo.Resolve.QueryItems.{
  AreSorted, AreTaken, sort_by-AreSorted, truncate-AreTaken, Answers-fail,
}
use rototo.Resolve.Shown.{shown_trace, shown_trace_lem}
use rototo.Resolve.Hydrate.{with_id}
use rototo.Resolve.Allocation.{give_result-eq-ok}
use rototo.Resolve.QueryFilter.{AreFiltered, filter_entries-AreFiltered}

module _ (E : Engine) (s : Session E) where
  open E use {Json, array, null}

  -- an entry as it stands in the catalog, with its name as the id
  abbrev pub listed_entry : Map Json → Bytes → Json
  listed_entry entries name =
      with_id E name (elim (lookup entries name) [ none ↦ null | some entry ↦ entry ])

  abbrev pub listed_names : Matches E → List Bytes
  listed_names matches = map (λ (name, view). name) matches

  -- the default without a match, and else the only or the first match, or all of them
  abbrev pub IsChoice : RuntimeQuery E → Map Json → Matches E → RuntimeSelectedValue E → Type 0
  IsChoice query entries [] selected =
      (query.default ≡ some selected)
      ⊎ ((query.single ≡ false)
          × (query.default ≡ none)
          × (selected ≡ catalog_array query.catalog_id [] (array [])))
  IsChoice query entries ((name, view) ∷ matches) selected =
      ((query.single ≡ true)
        × ((is_empty matches ≡ true) ⊎ (has_sort E query.sort ≡ true))
        × (selected ≡ catalog query.catalog_id name (listed_entry entries name)))
      ⊎ ((query.single ≡ false)
          × (selected
              ≡ catalog_array query.catalog_id (listed_names ((name, view) ∷ matches))
                  (array (map (listed_entry entries) (listed_names ((name, view) ∷ matches))))))

  select_single-IsChoice :
      (id : Bytes) (query : RuntimeQuery E) (entries : Map Json) (matches : Matches E)
      (selected : RuntimeSelectedValue E)
      → query.single ≡ true
      → Answers E s (select_single E id query entries matches) selected
      → IsChoice query entries matches selected
  unfolding select_single
  select_single-IsChoice id query entries [] selected one h =
      let found = give_result-eq-ok E s (ok_or query.default (no_match id)) selected h in
      inl (ok_or-eq-ok query.default (no_match id) found)
  select_single-IsChoice id query entries ((name, view) ∷ matches) selected one h =
      let chosen = catalog query.catalog_id name (raw_entry_with_id E entries name) in
      elim (Bool-cases (is_empty matches)) [
        | inl e ↦ inl (one, inl e, sym (Answers-give E s chosen selected (rw e at h)))
        | inr e ↦ elim (Bool-cases (has_sort E query.sort)) [
          | inl f ↦ inl (one, inr f, sym (Answers-give E s chosen selected (rw (e, f) at h)))
          | inr f ↦
              absurd (
                Answers-fail E s (many_matches (suc (length matches)) id) selected (rw (e, f) at h))
        ]
      ]

  array_value-IsChoice :
      (query : RuntimeQuery E) (entries : Map Json) (default : Option (RuntimeSelectedValue E))
      (selected : RuntimeSelectedValue E)
      → query.single ≡ false
      → query.default ≡ default
      → elim default as (λ d. RuntimeSelectedValue E) [
        | none ↦ matches_value E query entries []
        | some d ↦ d
      ]
        ≡ selected
      → IsChoice query entries [] selected
  array_value-IsChoice query entries none selected many d e = inr (many, d, sym e)
  array_value-IsChoice query entries (some default) selected many d e = inl (d ∙ ap some e)

  select_array-IsChoice :
      (query : RuntimeQuery E) (entries : Map Json) (matches : Matches E)
      (selected : RuntimeSelectedValue E)
      → query.single ≡ false
      → select_array E query entries matches ≡ selected
      → IsChoice query entries matches selected
  unfolding select_array
  select_array-IsChoice query entries [] selected many e =
      array_value-IsChoice query entries query.default selected many refl e
  select_array-IsChoice query entries (m ∷ matches) selected many e = inr (many, sym e)

  select_matches-IsChoice :
      (id : Bytes) (query : RuntimeQuery E) (entries : Map Json) (matches : Matches E)
      (selected : RuntimeSelectedValue E)
      → Answers E s (select_matches E id query entries matches) selected
      → IsChoice query entries matches selected
  unfolding select_matches select_single select_array
  select_matches-IsChoice id query entries matches selected h = elim (Bool-cases query.single) [
    | inl e ↦ select_single-IsChoice id query entries matches selected e (rw e at h)
    | inr e ↦
        let chosen = Answers-give E s (select_array E query entries matches) selected (rw e at h) in
        select_array-IsChoice query entries matches selected e chosen
  ]

  -- what a query selects
  abbrev pub IsSelection : RuntimeQuery E → RuntimeSelectedValue E → Type 0
  IsSelection query selected =
      (entries : Map Json) × (matches : Matches E) × (arranged : Matches E) × (taken : Matches E)
      × (lookup s.runtime.catalog_entries query.catalog_id ≡ some entries)
      × AreFiltered E s query entries matches
      × AreSorted E s query.descending query.sort matches arranged
      × AreTaken E query.limit arranged taken
      × IsChoice query entries taken selected

  resolve_catalog_query-IsSelection :
      (id : Bytes) (query : RuntimeQuery E) (selected : RuntimeSelectedValue E)
      → Answers E s (resolve_catalog_query E s id query) selected
      → IsSelection query selected
  unfolding resolve_catalog_query sort_matches
  resolve_catalog_query-IsSelection id query selected h =
      let found =
        ok_or (lookup s.runtime.catalog_entries query.catalog_id) (no_entries query.catalog_id) in
      let choose : Map Json → Matches E → Ask Json (RuntimeSelectedValue E) =
        λ entries matches. select_matches E id query entries (truncate E query.limit matches) in
      let (entries, known, filtered) =
        Answers-bind E s (give_result found)
          (λ entries. filter_entries E s query entries >>= λ ms.
            sort_matches E s id query ms >>= choose entries)
          selected h in
      let (matches, kept, sorted) =
        Answers-bind E s (filter_entries E s query entries)
          (λ ms. sort_matches E s id query ms >>= choose entries) selected filtered in
      let (arranged, by_key, last) =
        Answers-bind E s (sort_matches E s id query matches) (choose entries) selected sorted in
      (
        entries,
        matches,
        arranged,
        truncate E query.limit arranged,
        ok_or-eq-ok (lookup s.runtime.catalog_entries query.catalog_id)
            (no_entries query.catalog_id) (give_result-eq-ok E s found entries known),
        filter_entries-AreFiltered E s query entries matches kept,
        sort_by-AreSorted E s id query.descending query.sort matches arranged by_key,
        truncate-AreTaken E query.limit arranged,
        select_matches-IsChoice id query entries (truncate E query.limit arranged) selected last,
      )

  -- the default of a query, where none stands for null
  abbrev pub shown_default : Option (RuntimeSelectedValue E) → RuntimeSelectedValue E
  shown_default none = literal null
  shown_default (some default) = default

  query_trace-shown :
      (id : Bytes) (default : Option (RuntimeSelectedValue E)) (selected : RuntimeSelectedValue E)
      → with_provenance E s id (query_trace_of E id default selected)
        ≡ shown_trace E id
            (shown_default default)
            selected
            []
            none
            (lookup s.runtime.resolve_provenance id)
  query_trace-shown id none selected = shown_trace_lem E id (literal null) selected [] none _
  query_trace-shown id (some default) selected = shown_trace_lem E id default selected [] none _

  -- If a variable that resolves by a query has a trace, then its catalog has entries, each of them
  -- hydrates and the filter evaluates for it, and the matches are exactly those for which it
  -- evaluates to true, in their order; with a sort expression, it evaluates for each match,
  -- adjacent keys are two numbers or two texts, and the matches are rearranged so that no key
  -- comes after the next one, unless the next one also comes before it, or the other way around
  -- for a descending sort; the taken ones are the first up to the limit; and the value is the
  -- default or an empty array when nothing is taken, and else, for a single value, the first one,
  -- which is the only one or the query has a sort, and for an array the array of all the taken
  -- entries as they stand in the catalog with their names as ids.
  pub query_trace-IsSelection :
      (id : Bytes) (query : RuntimeQuery E) (trace : VariableResolutionTrace E)
      → lookup s.runtime.variables id ≡ some (query_resolution query)
      → trace_variable_unchecked E s id ≡ ok trace
      → (selected : RuntimeSelectedValue E) × IsSelection query selected
        × (trace
            ≡ shown_trace E id
                (shown_default query.default)
                selected
                []
                none
                (lookup s.runtime.resolve_provenance id))
  unfolding resolve_query_trace
  query_trace-IsSelection id query trace known h =
      let (t, method, whole) = method-trace E s id (query_resolution query) trace known h in
      let (selected, chosen, last) =
        Answers-bind E s (resolve_catalog_query E s id query)
          (λ selected. give (query_trace_of E id query.default selected)) t method in
      let built = Answers-give E s (query_trace_of E id query.default selected) t last in
      (
        selected,
        resolve_catalog_query-IsSelection id query selected chosen,
        whole
            ∙ ap (with_provenance E s id) (sym built)
            ∙ query_trace-shown id query.default selected,
      )
