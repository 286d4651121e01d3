-- ===== src/Toml.antt =====
-- TOML values (the package `toml`) as the source sees them: what is not a string, an array or a table
-- is a scalar, of a type that the interface gives. A table is a map, its pairs in key order.
pub mod Fields
use rototo.Base.{
  Bool, true, false, ◌&&◌, ◌||◌, List, [], ◌∷◌, Option, none, some, if◌then◌else◌, Result, ℕ, suc,
  Bytes, text_eq, text_less,
}

mutual
  pub data Value (S : Type 0) : Type 0 where
    string : Bytes → Value S
    scalar : S → Value S
    array : Values S → Value S
    table : Table S → Value S

  pub data Values (S : Type 0) : Type 0 where
    end_array : Values S
    element : Value S → Values S → Values S

  pub data Table (S : Type 0) : Type 0 where
    end_table : Table S
    pair : Bytes → Value S → Table S → Table S

-- What the source takes from the package: the scalars with their `PartialEq`, `str::parse` and
-- `to_string_pretty`. An error is its text.
pub record Toml : Type 1 where
  pub Scalar : Type 0
  pub same_scalar : Scalar → Scalar → Bool
  pub parse : Bytes → Result Bytes (Value Scalar)
  pub print : Value Scalar → Result Bytes Bytes

module _ {S : Type 0} where
  abbrev pub as_table : Value S → Option (Table S)
  as_table (table fields) = some fields
  as_table _ = none

  abbrev pub as_array : Value S → Option (Values S)
  as_array (array items) = some items
  as_array _ = none

  abbrev pub as_string : Value S → Option Bytes
  as_string (string text) = some text
  as_string _ = none

  unfoldable pub get : Table S → Bytes → Option (Value S)
  get end_table key = none
  get (pair k v fields) key = if text_eq k key then some v else get fields key

  abbrev pub contains_key : Table S → Bytes → Bool
  contains_key fields key = elim (get fields key) [ none ↦ false | some v ↦ true ]

  abbrev pub table_keys : Table S → List Bytes
  table_keys end_table = []
  table_keys (pair k v fields) = k ∷ table_keys fields

  -- the value of a key that the table has is another
  unfoldable pub replace : Table S → Bytes → Value S → Table S
  replace end_table key value = end_table
  replace (pair k v fields) key value =
      let rest = replace fields key value in
      if text_eq k key then pair k value fields else pair k v rest

  -- a key that the table does not have, at its place in the order
  unfoldable pub insert_new : Table S → Bytes → Value S → Table S
  insert_new end_table key value = pair key value end_table
  insert_new (pair k v fields) key value =
      let rest = insert_new fields key value in
      if text_less key k then pair key value (pair k v fields) else pair k v rest

  -- `table.insert(key, value)`
  unfoldable pub insert : Table S → Bytes → Value S → Table S
  unfolding get
  insert fields key value =
      if contains_key fields key then replace fields key value else insert_new fields key value

  -- `value.get(key)`, which is nothing for a value that is not a table
  abbrev pub get_in : Value S → Bytes → Option (Value S)
  get_in value key = elim (as_table value) [ none ↦ none | some fields ↦ get fields key ]
