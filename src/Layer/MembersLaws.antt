-- ===== src/Layer/MembersLaws.antt =====
-- The members of a composed list, counted.
use rototo.Base.{
  Bool, true, false, Option, none, some, ◌≡◌, refl, arith, inl, inr, Bool-cases, Option-cases,
  if◌then◌else◌, ok, ◌||◌, ◌⊎◌, ℕ, suc, ◌+◌, >>=-eq-ok,
}
use mathlib.Core.Path.{subst}
use rototo.Toml.{Toml, Value, Values, end_array, element}
use rototo.Layer.Files.{FilePath}
use rototo.Layer.SameValue.{IsPartialEq, same_value_sym, same_value_trans}
use rototo.Layer.Members.{
  same_value, contains, push, remove_member, add_members, delete_members, compose_members,
  union_members, has_members,
}

module _ (T : Toml) (scalars : IsPartialEq T) where
  same_value_at_end :
      (a b c : Value T.Scalar) → same_value T a b ≡ true → same_value T a c ≡ same_value T b c
  same_value_at_end a b c h = ground (
    arith,
    same_value_sym T scalars a b h,
    same_value_trans T scalars a b c,
    same_value_trans T scalars b a c,
  )

  unfoldable pub count : Values T.Scalar → Value T.Scalar → ℕ
  count end_array v = 0
  count (element x xs) v = let rest = count xs v in if same_value T x v then suc rest else rest

  abbrev one_if : Bool → ℕ
  one_if true = 1
  one_if false = 0

  remove_member-count :
      (xs : Values T.Scalar) (m v : Value T.Scalar) (rest : Values T.Scalar)
      → remove_member T xs m ≡ some rest
      → count xs v ≡ count rest v + one_if (same_value T m v)
  unfolding remove_member count
  remove_member-count end_array m v rest h = cc
  remove_member-count (element x xs) m v rest h = elim (Bool-cases (same_value T x m)) [
    | inl e ↦ ground (arith, same_value_at_end x m v e)
    | inr e ↦ elim (Option-cases (remove_member T xs m)) [
      | inl f ↦ ground arith
      | inr (r, f) ↦
          let ih = remove_member-count xs m v r f in
          let found : element x r ≡ rest = ground arith in
          subst (λ t. count (element x xs) v ≡ count t v + one_if (same_value T m v)) found
            (ground arith)
    ]
  ]

  count-push :
      (xs : Values T.Scalar) (m v : Value T.Scalar)
      → count (push T xs m) v ≡ count xs v + one_if (same_value T m v)
  unfolding push count
  count-push end_array m v = ground arith
  count-push (element x xs) m v = ground (arith, count-push xs m v)

  contains-count :
      (xs : Values T.Scalar) (v : Value T.Scalar) → contains T xs v ≡ false → count xs v ≡ 0
  unfolding contains count
  contains-count end_array v h = refl
  contains-count (element x xs) v h = ground (arith, contains-count xs v)

  contains-push :
      (xs : Values T.Scalar) (m v : Value T.Scalar)
      → contains T (push T xs m) v ≡ (contains T xs v || same_value T m v)
  unfolding push contains
  contains-push end_array m v = ground arith
  contains-push (element x xs) m v = ground (arith, contains-push xs m v)

  contains-same :
      (xs : Values T.Scalar) (m v : Value T.Scalar)
      → contains T xs m ≡ true
      → same_value T m v ≡ true
      → contains T xs v ≡ true
  unfolding contains
  contains-same end_array m v h e = cc
  contains-same (element x xs) m v h e =
      ground (arith, contains-same xs m v, same_value_trans T scalars x m v)

  abbrev pub values_of : Option (Values T.Scalar) → Values T.Scalar
  values_of none = end_array
  values_of (some values) = values

  -- how often a value stands in the union of the members of the base and of the overlay
  abbrev pub united : Values T.Scalar → Values T.Scalar → Value T.Scalar → ℕ
  united base members v =
      if contains T base v then count base v else if contains T members v then 1 else 0

  add_members-count :
      (base members : Values T.Scalar) (v : Value T.Scalar)
      → count (add_members T base members) v ≡ united base members v
  unfolding add_members
  add_members-count base end_array v = unfold contains in ground (arith, contains-count base v)
  add_members-count base (element m members) v = elim (Bool-cases (contains T base m)) [
    | inl e ↦
        let ih = add_members-count base members v in
        let known = contains-same base m v e in unfold contains in ground arith
    | inr e ↦
        let ih = add_members-count (push T base m) members v in
        unfold contains in
        ground (
          arith,
          contains-push base m v,
          count-push base m v,
          contains-count base v,
          contains-same base v m,
          same_value_sym T scalars m v,
        )
  ]

  union_members-count :
      (base : Values T.Scalar) (overlay : Option (Values T.Scalar)) (v : Value T.Scalar)
      → count (union_members T base overlay) v ≡ united base (values_of overlay) v
  unfolding union_members
  union_members-count base none v = unfold contains in ground (arith, contains-count base v)
  union_members-count base (some members) v = add_members-count base members v

  delete_members-count :
      (base : Values T.Scalar) (overlay : Option (Values T.Scalar)) (deleted : Values T.Scalar)
      (relative : FilePath) (rest : Values T.Scalar) (v : Value T.Scalar)
      → delete_members T base overlay deleted relative ≡ ok rest
      → count base v ≡ count rest v + count deleted v
  unfolding delete_members count
  delete_members-count base overlay end_array relative rest v h = ground arith
  delete_members-count base overlay (element m deleted) relative rest v h =
      elim (Option-cases (remove_member T base m)) [
        | inl e ↦ ground arith
        | inr (r, e) ↦
            let step = remove_member-count base m v r e in
            let ih = delete_members-count r overlay deleted relative rest v (ground arith) in
            ground arith
      ]

  delete_members-disjoint :
      (base : Values T.Scalar) (overlay : Option (Values T.Scalar)) (deleted : Values T.Scalar)
      (relative : FilePath) (rest : Values T.Scalar) (v : Value T.Scalar)
      → delete_members T base overlay deleted relative ≡ ok rest
      → contains T deleted v ≡ true
      → contains T (values_of overlay) v ≡ false
  unfolding delete_members contains
  delete_members-disjoint base none deleted relative rest v h c = refl
  delete_members-disjoint base overlay end_array relative rest v h c = cc
  delete_members-disjoint base (some members) (element m deleted) relative rest v h c =
      elim (Option-cases (remove_member T base m)) [
        | inl e ↦ ground arith
        | inr (r, e) ↦ elim (Bool-cases (same_value T m v)) [
          | inl d ↦ ground (arith, contains-same members v m, same_value_sym T scalars m v d)
          | inr d ↦
              delete_members-disjoint r (some members) deleted relative rest v (ground arith)
                (ground arith)
        ]
      ]

  -- If the comparison of scalars is symmetric and transitive and the members of a list compose,
  -- then for every value the count in the result and the count among the deleted values add up to
  -- the count in the base, or to one for a value that only the overlay adds; no deleted value is
  -- among the overlay's members; and with deleted values the result has a member.
  pub compose_members-count :
      (base : Values T.Scalar) (overlay deleted : Option (Values T.Scalar)) (relative : FilePath)
      (out : Values T.Scalar)
      → compose_members T base overlay deleted relative ≡ ok out
      → ((v : Value T.Scalar)
          → (count out v + count (values_of deleted) v ≡ united base (values_of overlay) v)
            × (contains T (values_of deleted) v ≡ true → contains T (values_of overlay) v ≡ false))
        × (deleted ≡ none ⊎ (has_members T out ≡ true))
  unfolding compose_members count
  compose_members-count base overlay none relative out h =
      let same : union_members T base overlay ≡ out = ground arith in
      (
        λ v. (
          subst (λ o. count o v + 0 ≡ united base (values_of overlay) v) same
              (omega (arith, union_members-count base overlay v)),
          λ c. unfold contains in cc,
        ),
        inl refl,
      )
  compose_members-count base overlay (some deleted) relative out h =
      let (rest, left, passed) =
        >>=-eq-ok (delete_members T (union_members T base overlay) overlay deleted relative) _ h in
      let nonempty : has_members T rest ≡ true = ground arith in
      let same : rest ≡ out = ground arith in
      (
        λ v. (
          subst (λ o. count o v + count deleted v ≡ united base (values_of overlay) v) same
              (omega (
                arith,
                union_members-count base overlay v,
                delete_members-count (union_members T base overlay) overlay deleted relative rest v
                    left,
              )),
          delete_members-disjoint (union_members T base overlay) overlay deleted relative rest v
              left,
        ),
        inr (subst (λ o. has_members T o ≡ true) same (ground arith)),
      )
