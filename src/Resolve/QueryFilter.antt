-- ===== src/Resolve/QueryFilter.antt =====
-- The filter of a query (src/resolve.rs): which entries of a catalog match.
use rototo.Base.{
  Option-cases, Bool, true, false, [], ◌∷◌, Option, none, some, ◌≡◌, ◌⊎◌, inl, inr, sym, ok, Map,
  if◌then◌else◌,
}
use rototo.Resolve.Engine.{Engine}
use rototo.Resolve.Runtime.{Expression, RuntimeQuery}
use rototo.Resolve.Ask.{give, ◌>>=◌, give_result}
use rototo.Resolve.Evaluate.{Session, evaluate_bool}
use rototo.Resolve.HydrateSchema.{catalog_entry_view}
use rototo.Resolve.Query.{Matches, keeps, filter_entries}
use rototo.Resolve.Answers.{Answers-bind, Answers-give}
use rototo.Resolve.Memo.{Answers}
use rototo.Resolve.Allocation.{give_result-eq-ok}

module _ (E : Engine) (s : Session E) where
  open E use {Json, array, null}

  -- the filter of a query evaluates to this for an entry
  abbrev pub FilterIs : Option (Expression E) → Json → Bool → Type 0
  FilterIs none view value = value ≡ true
  FilterIs (some filter) view value = Answers E s (evaluate_bool E s filter (some view)) value

  -- the hydrated entries for which the filter evaluates to true, where it evaluates for all
  abbrev pub AreFiltered : RuntimeQuery E → Map Json → Matches E → Type 0
  AreFiltered query [] matches = matches ≡ []
  AreFiltered query ((name, entry) ∷ entries) matches =
      (view : Json) × (rest : Matches E) × (catalog_entry_view E s.depth s.runtime query.catalog_id
          name entry
        ≡ ok view)
      × AreFiltered query entries rest
      × ((FilterIs query.filter view true × (matches ≡ (name, view) ∷ rest))
          ⊎ (FilterIs query.filter view false × (matches ≡ rest)))

  keeps-FilterIs :
      (query : RuntimeQuery E) (view : Json) (keep : Bool)
      → Answers E s (keeps E s query view) keep
      → FilterIs query.filter view keep
  keeps-FilterIs query view keep h = elim (Option-cases query.filter) [
    | inl e ↦ rw e (sym (Answers-give E s true keep (rw e at h)))
    | inr (filter, e) ↦ rw e (rw e at h)
  ]

  pub filter_entries-AreFiltered :
      (query : RuntimeQuery E) (entries : Map Json) (matches : Matches E)
      → Answers E s (filter_entries E s query entries) matches
      → AreFiltered query entries matches
  unfolding filter_entries
  filter_entries-AreFiltered query [] matches h = sym (Answers-give E s [] matches h)
  filter_entries-AreFiltered query ((name, entry) ∷ entries) matches h =
      let seen = catalog_entry_view E s.depth s.runtime query.catalog_id name entry in
      let kept : Json → Bool → Matches E → Matches E =
        λ view keep rest. if keep then (name, view) ∷ rest else rest in
      let (view, hydrated, tested) =
        Answers-bind E s (give_result seen)
          (λ view. keeps E s query view >>= λ keep.
            filter_entries E s query entries >>= λ rest. give (kept view keep rest))
          matches h in
      let (keep, test, others) =
        Answers-bind E s (keeps E s query view)
          (λ keep. filter_entries E s query entries >>= λ rest. give (kept view keep rest)) matches
          tested in
      let (rest, more, last) =
        Answers-bind E s (filter_entries E s query entries) (λ rest. give (kept view keep rest))
          matches others in
      (
        view,
        rest,
        give_result-eq-ok E s seen view hydrated,
        filter_entries-AreFiltered query entries rest more,
        by_test keep (keeps-FilterIs query view keep test)
            (sym (Answers-give E s (kept view keep rest) matches last)),
      )
    where
      by_test :
          {view : Json} {rest : Matches E} (keep : Bool)
          → FilterIs query.filter view keep
          → matches ≡ (if keep then (name, view) ∷ rest else rest)
          → (FilterIs query.filter view true × (matches ≡ (name, view) ∷ rest))
            ⊎ (FilterIs query.filter view false × (matches ≡ rest))
      by_test true test made = inl (test, made)
      by_test false test made = inr (test, made)
