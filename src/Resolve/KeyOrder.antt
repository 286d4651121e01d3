-- ===== src/Resolve/KeyOrder.antt =====
-- The order of the sort keys of a query (src/resolve.rs), from the order of bytes and of numbers.
use rototo.Base.{
  ℕ, ◌<◌, true, false, ◌&&◌, [], ◌∷◌, ◌++◌, some, ◌≡◌, ◌⊎◌, inl, inr, refl, ap, arith, Bytes, ltb,
  ◌==◌, Bool-cases, Option-cases,
}
use mathlib.Core.Path.{subst}
use rototo.Resolve.Engine.{Engine, greater}
use rototo.Resolve.Query.{compare_bytes, compare_query_sort_keys, query_sort_keys_comparable}

-- the first byte that differs is larger, or the other text is a beginning of the text
unfoldable pub IsAfter : Bytes → Bytes → Type 0
IsAfter left right =
    ((start : Bytes) × (x : ℕ) × (y : ℕ) × (xs : Bytes) × (ys : Bytes) × (y < x)
      × (left ≡ start ++ x ∷ xs)
      × (right ≡ start ++ y ∷ ys))
    ⊎ ((x : ℕ) × (xs : Bytes) × (left ≡ right ++ x ∷ xs))

later-IsAfter : (x : ℕ) (left right : Bytes) → IsAfter left right → IsAfter (x ∷ left) (x ∷ right)
unfolding IsAfter
later-IsAfter x left right (inl (start, a, b, as', bs, lt, l, r)) =
    inl (x ∷ start, a, b, as', bs, lt, ap (λ t. x ∷ t) l, ap (λ t. x ∷ t) r)
later-IsAfter x left right (inr (a, as', l)) = inr (a, as', ap (λ t. x ∷ t) l)

compare_bytes-IsAfter :
    (left right : Bytes) → compare_bytes left right ≡ greater → IsAfter left right
unfolding compare_bytes IsAfter
compare_bytes-IsAfter [] [] h = cc
compare_bytes-IsAfter [] (y ∷ ys) h = cc
compare_bytes-IsAfter (x ∷ xs) [] h = inr (x, xs, refl)
compare_bytes-IsAfter (x ∷ xs) (y ∷ ys) h = elim (Bool-cases (x == y)) [
  | inl e ↦
      let rest : compare_bytes xs ys ≡ greater = ground arith in
      let equal : x ≡ y = ground arith in
      subst (λ z. IsAfter (x ∷ xs) (z ∷ ys)) equal
        (later-IsAfter x xs ys (compare_bytes-IsAfter xs ys rest))
  | inr e ↦ elim (Bool-cases (ltb x y)) [
    | inl f ↦ absurd (ground arith)
    | inr f ↦ inl ([], x, y, xs, ys, ground arith, refl, refl)
  ]
]

differs :
    (start : Bytes) (x y : ℕ) (xs ys : Bytes)
    → y < x
    → compare_bytes (start ++ x ∷ xs) (start ++ y ∷ ys) ≡ greater
unfolding compare_bytes
differs [] x y xs ys h = ground arith
differs (c ∷ start) x y xs ys h = ground (arith, differs start x y xs ys h)

longer : (right : Bytes) (x : ℕ) (xs : Bytes) → compare_bytes (right ++ x ∷ xs) right ≡ greater
unfolding compare_bytes
longer [] x xs = refl
longer (c ∷ right) x xs = ground (arith, longer right x xs)

IsAfter-compare_bytes :
    (left right : Bytes) → IsAfter left right → compare_bytes left right ≡ greater
unfolding IsAfter
IsAfter-compare_bytes left right (inl (start, x, y, xs, ys, lt, l, r)) =
    rw (l, r) (differs start x y xs ys lt)
IsAfter-compare_bytes left right (inr (x, xs, l)) = rw l (longer right x xs)

module _ (E : Engine) where
  open E use {Json, as_str, is_number, compare_numbers}

  -- numbers by their order, and else texts by theirs
  unfoldable pub KeyAfter : Json → Json → Type 0
  KeyAfter left right =
      ((is_number left ≡ true)
        × (is_number right ≡ true)
        × (compare_numbers left right ≡ some greater))
      ⊎ (((is_number left && is_number right) ≡ false)
          × (l : Bytes) × (r : Bytes) × (as_str left ≡ some l)
          × (as_str right ≡ some r)
          × IsAfter l r)

  -- two numbers, or two texts
  unfoldable pub AreComparable : Json → Json → Type 0
  AreComparable left right =
      ((is_number left ≡ true) × (is_number right ≡ true))
      ⊎ ((l : Bytes) × (r : Bytes) × (as_str left ≡ some l) × (as_str right ≡ some r))

  pub compare-KeyAfter :
      (left right : Json) → compare_query_sort_keys E left right ≡ greater → KeyAfter left right
  unfolding compare_query_sort_keys KeyAfter
  compare-KeyAfter left right h = elim (Bool-cases (is_number left && is_number right)) [
    | inl e ↦ elim (Option-cases (compare_numbers left right)) [
      | inl f ↦ absurd (ground arith)
      | inr (c, f) ↦ inl (ground arith, ground arith, ground arith)
    ]
    | inr e ↦ elim (Option-cases (as_str left)) [
      | inl f ↦ absurd (ground arith)
      | inr (l, f) ↦ elim (Option-cases (as_str right)) [
        | inl g ↦ absurd (ground arith)
        | inr (r, g) ↦ inr (e, l, r, f, g, compare_bytes-IsAfter l r (ground arith))
      ]
    ]
  ]

  pub KeyAfter-compare :
      (left right : Json) → KeyAfter left right → compare_query_sort_keys E left right ≡ greater
  unfolding compare_query_sort_keys KeyAfter
  KeyAfter-compare left right (inl (a, b, c)) = ground arith
  KeyAfter-compare left right (inr (e, l, r, f, g, after)) =
      ground (arith, IsAfter-compare_bytes l r after)

  pub comparable-AreComparable :
      (left right : Json)
      → query_sort_keys_comparable E left right ≡ true
      → AreComparable left right
  unfolding query_sort_keys_comparable AreComparable
  comparable-AreComparable left right h = elim (Bool-cases (is_number left && is_number right)) [
    | inl e ↦ inl (ground arith, ground arith)
    | inr e ↦ elim (Option-cases (as_str left)) [
      | inl f ↦ absurd (ground arith)
      | inr (l, f) ↦ elim (Option-cases (as_str right)) [
        | inl g ↦ absurd (ground arith)
        | inr (r, g) ↦ inr (l, r, f, g)
      ]
    ]
  ]
