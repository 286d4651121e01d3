-- ===== src/Layer/SameValue.antt =====
-- Equality of TOML values is symmetric and transitive when that of the scalars is.
use rototo.Base.{true, ◌≡◌, refl, sym, ◌∙◌, arith, Bytes, text_eq, text_eq_iff}
use rototo.Toml.{
  Toml, Value, Values, Table, string, scalar, array, table, end_array, element, end_table, pair,
}
use rototo.Layer.Members.{same_value, same_values, same_table}

text_eq_sym : (a b : Bytes) → text_eq a b ≡ true → text_eq b a ≡ true
text_eq_sym a b h = let same = (text_eq_iff a b).0 h in (text_eq_iff b a).1 (sym same)

text_eq_trans : (a b c : Bytes) → text_eq a b ≡ true → text_eq b c ≡ true → text_eq a c ≡ true
text_eq_trans a b c h k = (text_eq_iff a c).1 ((text_eq_iff a b).0 h ∙ (text_eq_iff b c).0 k)

-- What `PartialEq` promises of the scalars: a comparison that is symmetric and transitive. It need
-- not be reflexive, and is not on the float that is no number.
abbrev pub IsPartialEq : Toml → Type 0
IsPartialEq T =
    ((a b : T.Scalar) → T.same_scalar a b ≡ true → T.same_scalar b a ≡ true)
    × ((a b c : T.Scalar)
        → T.same_scalar a b ≡ true
        → T.same_scalar b c ≡ true
        → T.same_scalar a c ≡ true)

module _ (T : Toml) (scalars : IsPartialEq T) where
  mutual
    unfolding same_value

    pub same_value_sym : (a b : Value T.Scalar) → same_value T a b ≡ true → same_value T b a ≡ true
    same_value_sym (string a) (string b) h = text_eq_sym a b h
    same_value_sym (scalar a) (scalar b) h = scalars.0 a b h
    same_value_sym (array a) (array b) h = same_values_sym a b h
    same_value_sym (table a) (table b) h = same_table_sym a b h
    same_value_sym _ _ h = ground arith

    same_values_sym : (a b : Values T.Scalar) → same_values T a b ≡ true → same_values T b a ≡ true
    same_values_sym end_array end_array h = refl
    same_values_sym (element x xs) (element y ys) h =
        ground (arith, same_value_sym x y, same_values_sym xs ys)
    same_values_sym _ _ h = ground arith

    same_table_sym : (a b : Table T.Scalar) → same_table T a b ≡ true → same_table T b a ≡ true
    same_table_sym end_table end_table h = refl
    same_table_sym (pair k v t) (pair j w u) h =
        ground (arith, text_eq_sym k j, same_value_sym v w, same_table_sym t u)
    same_table_sym _ _ h = ground arith

  mutual
    unfolding same_value

    pub same_value_trans :
        (a b c : Value T.Scalar)
        → same_value T a b ≡ true
        → same_value T b c ≡ true
        → same_value T a c ≡ true
    same_value_trans (string a) (string b) (string c) h k = text_eq_trans a b c h k
    same_value_trans (scalar a) (scalar b) (scalar c) h k = scalars.1 a b c h k
    same_value_trans (array a) (array b) (array c) h k = same_values_trans a b c h k
    same_value_trans (table a) (table b) (table c) h k = same_table_trans a b c h k
    same_value_trans _ _ _ h k = ground arith

    same_values_trans :
        (a b c : Values T.Scalar)
        → same_values T a b ≡ true
        → same_values T b c ≡ true
        → same_values T a c ≡ true
    same_values_trans end_array end_array end_array h k = refl
    same_values_trans (element x xs) (element y ys) (element z zs) h k =
        ground (arith, same_value_trans x y z, same_values_trans xs ys zs)
    same_values_trans _ _ _ h k = ground arith

    same_table_trans :
        (a b c : Table T.Scalar)
        → same_table T a b ≡ true
        → same_table T b c ≡ true
        → same_table T a c ≡ true
    same_table_trans end_table end_table end_table h k = refl
    same_table_trans (pair k v t) (pair j w u) (pair i x s) g h =
        ground (arith, text_eq_trans k j i, same_value_trans v w x, same_table_trans t u s)
    same_table_trans _ _ _ h k = ground arith
