-- ===== src/Layer/MergeLaws.antt =====
-- What a deep merge holds at each path.
use rototo.Base.{
  false, List, [], ◌∷◌, Option, none, some, ◌≡◌, refl, sym, ◌∙◌, arith, inl, inr, Bool-cases,
  Option-cases, Bytes, text_eq, text_eq-eq,
}
use mathlib.Core.Path.{subst}
use rototo.Toml.{
  Value, Table, string, scalar, array, table, end_table, pair, get, get_in, replace, insert,
}
use rototo.Toml.Fields.{
  IsProper, IsProperTable, IsProper-get, get-replace_self, get-replace_other, get-insert_self,
  get-insert_other,
}
use rototo.Layer.Merge.{deep_merge, merge_fields}

module _ {S : Type 0} where
  -- the value of one key of a merge
  abbrev pub merged : Option (Value S) → Option (Value S) → Option (Value S)
  merged o none = o
  merged none (some v) = some v
  merged (some w) (some v) = some (deep_merge w v)

  abbrev step : Table S → Bytes → Value S → Table S
  step base key value = elim (get base key) [
    | some existing ↦ replace base key (deep_merge existing value)
    | none ↦ insert base key value
  ]

  get-step_self :
      (b : Table S) (k : Bytes) (v : Value S) → get (step b k v) k ≡ merged (get b k) (some v)
  get-step_self b k v = elim (Option-cases (get b k)) [
    | inl e ↦ ground (arith, get-insert_self b k v)
    | inr (w, e) ↦ ground (arith, get-replace_self b k (deep_merge w v) w e)
  ]

  get-step_other :
      (b : Table S) (k j : Bytes) (v : Value S) → text_eq k j ≡ false → get (step b k v) j ≡ get b j
  get-step_other b k j v h = elim (Option-cases (get b k)) [
    | inl e ↦ ground (arith, get-insert_other b k j v h)
    | inr (w, e) ↦ ground (arith, get-replace_other b k j (deep_merge w v) h)
  ]

  pub get-merge_fields :
      (b u : Table S) (j : Bytes)
      → IsProperTable u
      → get (merge_fields b u) j ≡ merged (get b j) (get u j)
  unfolding merge_fields get IsProper
  get-merge_fields b end_table j h = refl
  get-merge_fields b (pair k v u) j (new, _, h) = elim (Bool-cases (text_eq k j)) [
    | inl e ↦
        let same = text_eq-eq k j e in
        rw (e, get-merge_fields (step b k v) u j h)
          (subst (λ i. merged (get (step b k v) i) (get u i) ≡ merged (get b i) (some v)) same
            (rw new (get-step_self b k v)))
    | inr e ↦ rw (e, get-merge_fields (step b k v) u j h, get-step_other b k j v e)
  ]

  unfoldable pub value_at : Value S → List Bytes → Option (Value S)
  value_at value [] = some value
  value_at value (k ∷ path) = elim (get_in value k) [ none ↦ none | some v ↦ value_at v path ]

  -- a walk by the keys of the path ends at a key that a table of the update does not have
  unfoldable pub IsSilentAt : Value S → List Bytes → Type 0
  IsSilentAt (table fields) (k ∷ path) = elim (get fields k) [
    | none ↦ Unit
    | some v ↦ IsSilentAt v path
  ]
  IsSilentAt _ _ = ⊥

  abbrev pub IsLeaf : Value S → Type 0
  IsLeaf (table fields) = ⊥
  IsLeaf _ = Unit

  silent_value_at : (u : Value S) (path : List Bytes) → IsSilentAt u path → value_at u path ≡ none
  unfolding value_at IsSilentAt
  silent_value_at (table u) (k ∷ path) n = elim (Option-cases (get u k)) [
    | inl e ↦ ground arith
    | inr (v, e) ↦ ground (arith, silent_value_at v path)
  ]
  silent_value_at (string t) path n = absurd n
  silent_value_at (scalar t) path n = absurd n
  silent_value_at (array t) path n = absurd n
  silent_value_at (table u) [] n = absurd n

  value_at-some :
      (t : Table S) (k : Bytes) (path : List Bytes) {v : Value S}
      → get t k ≡ some v
      → value_at (table t) (k ∷ path) ≡ value_at v path
  unfolding value_at
  value_at-some t k path e = rw (value_at, e)

  value_at-none :
      (t : Table S) (k : Bytes) (path : List Bytes)
      → get t k ≡ none
      → value_at (table t) (k ∷ path) ≡ none
  unfolding value_at
  value_at-none t k path e = rw (value_at, e)

  IsSilentAt-some :
      (t : Table S) (k : Bytes) (path : List Bytes) {v : Value S}
      → get t k ≡ some v
      → IsSilentAt (table t) (k ∷ path)
      → IsSilentAt v path
  unfolding IsSilentAt
  IsSilentAt-some t k path e = rw (IsSilentAt, e) (λ n. n)

  merge_silent :
      (b u : Value S) (path : List Bytes)
      → IsProper u
      → IsSilentAt u path
      → value_at (deep_merge b u) path ≡ value_at b path
  unfolding IsProper deep_merge value_at
  merge_silent (table b) (table u) (k ∷ path) h n =
      let g = get-merge_fields b u k h in
      elim (Option-cases (get u k)) [
        | inl e ↦
            let same : get (merge_fields b u) k ≡ get b k = ground (arith, g) in rw (value_at, same)
        | inr (v, e) ↦
            let rest = IsSilentAt-some u k path e n in
            elim (Option-cases (get b k)) [
              | inl d ↦
                  value_at-some (merge_fields b u) k path (ground (arith, g))
                  ∙ silent_value_at v path rest
                  ∙ sym (value_at-none b k path d)
              | inr (w, d) ↦
                  value_at-some (merge_fields b u) k path (ground (arith, g))
                  ∙ merge_silent w v path (IsProper-get u k v h e) rest
                  ∙ sym (value_at-some b k path d)
            ]
      ]
  merge_silent b (table u) [] h n = absurd (unfold IsSilentAt in n)
  merge_silent b (string t) path h n = absurd (unfold IsSilentAt in n)
  merge_silent b (scalar t) path h n = absurd (unfold IsSilentAt in n)
  merge_silent b (array t) path h n = absurd (unfold IsSilentAt in n)
  merge_silent b (table u) (k ∷ path) h n = silent_value_at (table u) (k ∷ path) n

  deep_merge-leaf : (b u : Value S) → IsLeaf u → deep_merge b u ≡ u
  unfolding deep_merge
  deep_merge-leaf (table b) (table u) l = absurd l
  deep_merge-leaf (string b) u l = refl
  deep_merge-leaf (scalar b) u l = refl
  deep_merge-leaf (array b) u l = refl
  deep_merge-leaf (table b) (string u) l = refl
  deep_merge-leaf (table b) (scalar u) l = refl
  deep_merge-leaf (table b) (array u) l = refl

  merge_leaf :
      (b u : Value S) (path : List Bytes) (leaf : Value S)
      → IsProper u
      → IsLeaf leaf
      → value_at u path ≡ some leaf
      → value_at (deep_merge b u) path ≡ some leaf
  unfolding IsProper deep_merge
  merge_leaf (table b) (table u) (k ∷ path) leaf h l at =
      let g = get-merge_fields b u k h in
      elim (Option-cases (get u k)) [
        | inl e ↦ let found = value_at-none u k path e in cc
        | inr (v, e) ↦
            let rest = sym (value_at-some u k path e) ∙ at in
            elim (Option-cases (get b k)) [
              | inl d ↦ value_at-some (merge_fields b u) k path (ground (arith, g)) ∙ rest
              | inr (w, d) ↦
                  value_at-some (merge_fields b u) k path (ground (arith, g))
                  ∙ merge_leaf w v path leaf (IsProper-get u k v h e) l rest
            ]
      ]
  merge_leaf (table b) (table u) [] leaf h l at =
      let same : table u ≡ leaf = unfold value_at in ground (arith, at) in
      absurd (subst IsLeaf (sym same) l)
  merge_leaf b (string t) path leaf h l at = rw (deep_merge-leaf b (string t) tt) at
  merge_leaf b (scalar t) path leaf h l at = rw (deep_merge-leaf b (scalar t) tt) at
  merge_leaf b (array t) path leaf h l at = rw (deep_merge-leaf b (array t) tt) at
  merge_leaf b (table u) path leaf h l at = at

  -- For an update whose tables have no key twice, the deep merge has at each path what the base
  -- has there if the walk by the path leaves the tables of the update at a key that it lacks, and
  -- has the value of the update where that is no table.
  pub deep_merge_at :
      (b u : Value S) (path : List Bytes)
      → IsProper u
      → (IsSilentAt u path → value_at (deep_merge b u) path ≡ value_at b path)
        × ((leaf : Value S)
            → IsLeaf leaf
            → value_at u path ≡ some leaf
            → value_at (deep_merge b u) path ≡ some leaf)
  deep_merge_at b u path h = (merge_silent b u path h, λ leaf l at. merge_leaf b u path leaf h l at)
