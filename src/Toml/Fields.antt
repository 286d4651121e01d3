-- ===== src/Toml/Fields.antt =====
-- Reading a key of a table behind an insertion.
use rototo.Base.{
  false, none, some, ◌≡◌, refl, arith, inl, inr, Bool-cases, Option-cases, Bytes, text_eq,
  text_eq-eq, text_eq_refl,
}
use mathlib.Core.Path.{subst}
use rototo.Toml.{table, Value, Table, end_table, pair, get, replace, insert_new, insert}

module _ {S : Type 0} where
  pub get-replace_self :
      (t : Table S) (k : Bytes) (v w : Value S) → get t k ≡ some w → get (replace t k v) k ≡ some v
  unfolding get replace
  get-replace_self end_table k v w h = cc
  get-replace_self (pair j u t) k v w h = elim (Bool-cases (text_eq j k)) [
    | inl e ↦ ground arith
    | inr e ↦ ground (arith, get-replace_self t k v w)
  ]

  pub get-replace_other :
      (t : Table S) (k j : Bytes) (v : Value S)
      → text_eq k j ≡ false
      → get (replace t k v) j ≡ get t j
  unfolding get replace
  get-replace_other end_table k j v h = refl
  get-replace_other (pair i u t) k j v h = elim (Bool-cases (text_eq i k)) [
    | inl e ↦ let same = text_eq-eq i k e in rw same (ground arith)
    | inr e ↦ ground (arith, get-replace_other t k j v h)
  ]

  pub get-insert_new_self :
      (t : Table S) (k : Bytes) (v : Value S) → get t k ≡ none → get (insert_new t k v) k ≡ some v
  unfolding get insert_new
  get-insert_new_self end_table k v h = rw (text_eq_refl k)
  get-insert_new_self (pair j u t) k v h = ground (arith, text_eq_refl k, get-insert_new_self t k v)

  pub get-insert_new_other :
      (t : Table S) (k j : Bytes) (v : Value S)
      → text_eq k j ≡ false
      → get (insert_new t k v) j ≡ get t j
  unfolding get insert_new
  get-insert_new_other end_table k j v h = rw h
  get-insert_new_other (pair i u t) k j v h = ground (arith, get-insert_new_other t k j v h)

  pub get-insert_self : (t : Table S) (k : Bytes) (v : Value S) → get (insert t k v) k ≡ some v
  unfolding insert
  get-insert_self t k v = elim (Option-cases (get t k)) [
    | inl e ↦ ground (arith, get-insert_new_self t k v e)
    | inr (w, e) ↦ ground (arith, get-replace_self t k v w e)
  ]

  pub get-insert_other :
      (t : Table S) (k j : Bytes) (v : Value S)
      → text_eq k j ≡ false
      → get (insert t k v) j ≡ get t j
  unfolding insert
  get-insert_other t k j v h = elim (Option-cases (get t k)) [
    | inl e ↦ ground (arith, get-insert_new_other t k j v h)
    | inr (w, e) ↦ ground (arith, get-replace_other t k j v h)
  ]

module _ {S : Type 0} where
  -- the tables that a walk by keys reaches have no key twice
  unfoldable mutual
    pub IsProper : Value S → Type 0
    IsProper (table fields) = IsProperTable fields
    IsProper _ = Unit

    pub IsProperTable : Table S → Type 0
    IsProperTable end_table = Unit
    IsProperTable (pair k v fields) = (get fields k ≡ none) × IsProper v × IsProperTable fields

  pub IsProper-get :
      (u : Table S) (k : Bytes) (v : Value S) → IsProperTable u → get u k ≡ some v → IsProper v
  unfolding IsProper get
  IsProper-get end_table k v h e = cc
  IsProper-get (pair j w u) k v (new, hw, h) e = elim (Bool-cases (text_eq j k)) [
    | inl same ↦ let found : w ≡ v = ground arith in subst IsProper found hw
    | inr other ↦ IsProper-get u k v h (ground arith)
  ]
