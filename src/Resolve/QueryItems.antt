-- ===== src/Resolve/QueryItems.antt =====
-- The sort expression and the limit of a query (src/resolve.rs).
use rototo.Base.{
  ℕ, zero, suc, ◌≤◌, Bool, [], ◌∷◌, ◌++◌, Option, none, some, ◌≡◌, ◌⊎◌, inl, inr, refl, sym, ap,
  arith, Bytes, All, length, map, Bool-cases,
}
use rototo.Resolve.Engine.{Engine}
use rototo.Resolve.Runtime.{Expression, RototoError, not_comparable}
use rototo.Resolve.Ask.{Ask, give, fail, ◌>>=◌}
use rototo.Resolve.Evaluate.{Session, evaluate_value}
use rototo.Resolve.Query.{
  take, Matches, Keyed, query_sort_keys_comparable, key_entries, check_keys, drop_keys, order_keyed,
  sort_by, truncate,
}
use rototo.Resolve.KeyOrder.{AreComparable, comparable-AreComparable}
use rototo.Resolve.Plain.{answer}
use rototo.Resolve.Answers.{Answers-bind, Answers-give}
use rototo.Resolve.Memo.{Answers}
use rototo.Resolve.QuerySort.{Adjacent, AreOrdered, order_keyed-AreOrdered}

module _ (E : Engine) where
  open E use {Json}

  -- the first items, up to the limit, if there is one
  abbrev pub AreTaken : Option ℕ → Matches E → Matches E → Type 0
  AreTaken none matches taken = taken ≡ matches
  AreTaken (some limit) matches taken =
      (left : Matches E) × (matches ≡ taken ++ left)
      × ((length taken ≡ limit) ⊎ ((length taken ≤ limit) × (left ≡ [])))

  take-AreTaken : (n : ℕ) (matches : Matches E) → AreTaken (some n) matches (take n matches)
  unfolding take
  take-AreTaken zero matches = (matches, refl, inl refl)
  take-AreTaken (suc n) [] = ([], refl, inr (omega arith, refl))
  take-AreTaken (suc n) (m ∷ matches) =
      let (left, parts, size) = take-AreTaken n matches in
      (
        left,
        ap (λ ms. m ∷ ms) parts,
        elim size [
          | inl full ↦ inl (ap suc full)
          | inr (fits, empty) ↦ inr (omega (arith, fits), empty)
        ],
      )

  pub truncate-AreTaken :
      (limit : Option ℕ) (matches : Matches E) → AreTaken limit matches (truncate E limit matches)
  truncate-AreTaken none matches = refl
  truncate-AreTaken (some n) matches = take-AreTaken n matches

module _ (E : Engine) (s : Session E) where
  open E use {Json}

  pub Answers-fail : {A : Type 0} (e : RototoError) (a : A) → ¬ Answers E s (fail e) a
  unfolding answer
  Answers-fail e a (n, h) = cc

  -- the entries with the values that the sort expression has for them
  abbrev pub AreKeyed : Expression E → Matches E → Keyed E → Type 0
  AreKeyed sort matches keyed =
      (map (λ (key, name, view). (name, view)) keyed ≡ matches)
      × All (λ (key, name, view). Answers E s (evaluate_value E s sort (some view)) key) keyed

  -- the matches as they are, or in the order of their keys, which can be compared
  abbrev pub AreSorted : Bool → Option (Expression E) → Matches E → Matches E → Type 0
  AreSorted descending none matches out = out ≡ matches
  AreSorted descending (some sort) matches out =
      (keyed : Keyed E) × (sorted : Keyed E) × AreKeyed sort matches keyed
      × Adjacent (λ a b. AreComparable E a.0 b.0) keyed
      × AreOrdered E descending keyed sorted
      × (out ≡ map (λ (key, name, view). (name, view)) sorted)

  key_entries-AreKeyed :
      (sort : Expression E) (matches : Matches E) (keyed : Keyed E)
      → Answers E s (key_entries E s sort matches) keyed
      → AreKeyed sort matches keyed
  unfolding key_entries
  key_entries-AreKeyed sort [] keyed h =
      let e = Answers-give E s [] keyed h in rw (sym e) (refl, tt)
  key_entries-AreKeyed sort ((name, view) ∷ matches) keyed h =
      let (key, evaluated, others) =
        Answers-bind E s (evaluate_value E s sort (some view))
          (λ key. key_entries E s sort matches >>= λ rest. give ((key, name, view) ∷ rest)) keyed
          h in
      let (rest, more, last) =
        Answers-bind E s (key_entries E s sort matches) (λ rest. give ((key, name, view) ∷ rest))
          keyed others in
      let e = Answers-give E s ((key, name, view) ∷ rest) keyed last in
      let (names, keys) = key_entries-AreKeyed sort matches rest more in
      rw (sym e) (ap (λ ms. (name, view) ∷ ms) names, (evaluated, keys))

  check_keys-Adjacent :
      (id : Bytes) (keyed : Keyed E) (u : Unit {0})
      → Answers E s (check_keys E id keyed) u
      → Adjacent (λ a b. AreComparable E a.0 b.0) keyed
  unfolding check_keys
  check_keys-Adjacent id [] u h = tt
  check_keys-Adjacent id (a ∷ []) u h = tt
  check_keys-Adjacent id (a ∷ b ∷ keyed) u h =
      elim (Bool-cases (query_sort_keys_comparable E a.0 b.0)) [
        | inl e ↦
            (comparable-AreComparable E a.0 b.0 e, check_keys-Adjacent id (b ∷ keyed) u (rw e at h))
        | inr e ↦
            absurd (Answers-fail (not_comparable id (E.to_text a.0) (E.to_text b.0)) u (rw e at h))
      ]

  pub sort_by-AreSorted :
      (id : Bytes) (descending : Bool) (sort : Option (Expression E)) (matches out : Matches E)
      → Answers E s (sort_by E s id descending sort matches) out
      → AreSorted descending sort matches out
  sort_by-AreSorted id descending none matches out h = sym (Answers-give E s matches out h)
  sort_by-AreSorted id descending (some sort) matches out h =
      let arranged : Keyed E → Ask Json (Matches E) = λ keyed.
        check_keys E id keyed >>= λ u. give (drop_keys E (order_keyed E descending keyed)) in
      let (keyed, evaluated, others) =
        Answers-bind E s (key_entries E s sort matches) arranged out h in
      let (u, checked, last) =
        Answers-bind E s (check_keys E id keyed)
          (λ u. give (drop_keys E (order_keyed E descending keyed))) out others in
      (
        keyed,
        order_keyed E descending keyed,
        key_entries-AreKeyed sort matches keyed evaluated,
        check_keys-Adjacent id keyed u checked,
        order_keyed-AreOrdered E descending keyed,
        sym (Answers-give E s (drop_keys E (order_keyed E descending keyed)) out last),
      )
