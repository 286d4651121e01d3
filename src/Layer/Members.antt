-- ===== src/Layer/Members.antt =====
-- `compose_list_members` of src/source/layer/compose.rs.
use rototo.Base.{
  Bool, true, false, not, ◌&&◌, ◌||◌, Option, none, some, if◌then◌else◌, Result, ok, err, ◌>>=◌,
  ◌>>◌, guard, Bytes, codes, text_eq,
}
use rototo.Toml.{
  Toml, Value, Values, Table, string, scalar, array, table, end_array, element, end_table, pair,
  get, insert, as_array,
}
use rototo.Layer.Files.{FilePath}
use rototo.Layer.Errors.{
  LayerError, deleted_not_an_array, no_member_set, adds_and_deletes, deletes_no_member,
  leaves_no_members,
}

module _ (T : Toml) where
  -- the derived `PartialEq`
  unfoldable mutual
    pub same_value : Value T.Scalar → Value T.Scalar → Bool
    same_value (string a) (string b) = text_eq a b
    same_value (scalar a) (scalar b) = T.same_scalar a b
    same_value (array a) (array b) = same_values a b
    same_value (table a) (table b) = same_table a b
    same_value _ _ = false

    pub same_values : Values T.Scalar → Values T.Scalar → Bool
    same_values end_array end_array = true
    same_values (element x xs) (element y ys) = same_value x y && same_values xs ys
    same_values _ _ = false

    pub same_table : Table T.Scalar → Table T.Scalar → Bool
    same_table end_table end_table = true
    same_table (pair k v t) (pair j w u) = text_eq k j && same_value v w && same_table t u
    same_table _ _ = false

  -- `values.contains(value)`
  unfoldable pub contains : Values T.Scalar → Value T.Scalar → Bool
  contains end_array value = false
  contains (element x xs) value = same_value x value || contains xs value

  unfoldable pub push : Values T.Scalar → Value T.Scalar → Values T.Scalar
  push end_array value = element value end_array
  push (element x xs) value = element x (push xs value)

  -- the position of the first equal member, and the members without it
  unfoldable pub remove_member : Values T.Scalar → Value T.Scalar → Option (Values T.Scalar)
  remove_member end_array value = none
  remove_member (element x xs) value =
      if same_value x value
      then some xs
      else elim (remove_member xs value) [ none ↦ none | some rest ↦ some (element x rest) ]

  -- the overlay's `members` behind the base's
  unfoldable pub add_members : Values T.Scalar → Values T.Scalar → Values T.Scalar
  unfolding contains push
  add_members base end_array = base
  add_members base (element member members) =
      add_members (if contains base member then base else push base member) members

  unfoldable pub union_members : Values T.Scalar → Option (Values T.Scalar) → Values T.Scalar
  union_members base none = base
  union_members base (some members) = add_members base members

  abbrev pub listed_in : Option (Values T.Scalar) → Value T.Scalar → Bool
  listed_in none value = false
  listed_in (some members) value = contains members value

  unfoldable pub delete_members :
      Values T.Scalar
      → Option (Values T.Scalar)
      → Values T.Scalar
      → FilePath
      → Result (LayerError T.Scalar) (Values T.Scalar)
  unfolding contains remove_member
  delete_members base overlay end_array relative = ok base
  delete_members base overlay (element value deleted) relative = do
    guard (not (listed_in overlay value)) (adds_and_deletes value relative)
    elim (remove_member base value) [
      | none ↦ err (deletes_no_member value relative)
      | some rest ↦ delete_members rest overlay deleted relative
    ]

  abbrev pub has_members : Values T.Scalar → Bool
  has_members end_array = false
  has_members (element x xs) = true

  -- the members of the composed list
  unfoldable pub compose_members :
      Values T.Scalar
      → Option (Values T.Scalar)
      → Option (Values T.Scalar)
      → FilePath
      → Result (LayerError T.Scalar) (Values T.Scalar)
  unfolding union_members delete_members
  compose_members base overlay deleted relative = elim deleted [
    | none ↦ ok (union_members base overlay)
    | some values ↦ do
      rest ← delete_members (union_members base overlay) overlay values relative
      guard (has_members rest) (leaves_no_members relative)
      ok rest
  ]

  abbrev pub deleted_values :
      Option (Value T.Scalar) → FilePath → Result (LayerError T.Scalar) (Option (Values T.Scalar))
  deleted_values none relative = ok none
  deleted_values (some (array values)) relative = ok (some values)
  deleted_values (some _) relative = err (deleted_not_an_array relative)

  abbrev pub array_at_key : Table T.Scalar → Bytes → Option (Values T.Scalar)
  array_at_key fields key = elim (get fields key) [ none ↦ none | some v ↦ as_array v ]

  -- the base has no array of members
  unfoldable pub adopt_members :
      Table T.Scalar
      → Option (Value T.Scalar)
      → Option (Values T.Scalar)
      → FilePath
      → Result (LayerError T.Scalar) (Value T.Scalar)
  adopt_members base members (some deleted) relative = err (no_member_set relative)
  adopt_members base none none relative = ok (table base)
  adopt_members base (some members) none relative =
      ok (table (insert base (codes "members") members))

  unfoldable pub compose_list_members :
      Value T.Scalar → Value T.Scalar → FilePath → Result (LayerError T.Scalar) (Value T.Scalar)
  compose_list_members (table base) (table overlay) relative = do
    deleted ← deleted_values (get overlay (codes "deleted")) relative
    elim (array_at_key base (codes "members")) [
      | none ↦ adopt_members base (get overlay (codes "members")) deleted relative
      | some members ↦ do
        composed ← compose_members members (array_at_key overlay (codes "members")) deleted relative
        ok (table (insert base (codes "members") (array composed)))
    ]
  compose_list_members base overlay relative = ok base
