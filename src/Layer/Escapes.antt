-- ===== src/Layer/Escapes.antt =====
-- Where a package that is staged in a temporary directory may extend from.
use rototo.Base.{
  true, false, not, ◌||◌, [], Option, none, some, Result, ok, err, >>=-eq-ok, ok-injective, Bytes,
  ◌≡◌, ◌≢◌, ap, ◌⊎◌, inl, inr, arith, Bool-cases, if◌then◌else◌, split, all, All, List, ◌∷◌, ◌++◌,
  codes, text_eq_iff, refl, ends_with-append, ends_with,
}
use mathlib.Core.Path.{subst}
use rototo.Toml.{Toml}
use rototo.Layer.Uri.{
  SourceUri, parse_uri, is_absolute, is_normal, is_first_normal, relative_path_is_safe,
}
use rototo.Layer.Sources.{ExtendSourceBase, ResolvedExtendSource}
use rototo.Layer.Extends.{
  uri_of, of_parse, resolve_plain, is_uri, package_source_uri_is_local_filesystem, resolve_staged,
  resolve_from, resolve_extend_source, join_path,
}

-- a relative path of names none of which is `..`, and that does not start with `.`
unfoldable pub IsInside : Bytes → Type 0
IsInside path =
    ((rest : Bytes) → path ≢ b'/' ∷ rest)
    × (path ≢ [])
    × ((rest : List Bytes) → split b'/' path ≢ codes "." ∷ rest)
    × All (λ name. name ≢ codes "..") (split b'/' path)

all_normal-All :
    (names : List Bytes) → all is_normal names ≡ true → All (λ name. name ≢ codes "..") names
unfolding all
all_normal-All [] h = tt
all_normal-All (name ∷ names) h = (
  λ same. ground (arith, (text_eq_iff name (codes "..")).1 same),
  all_normal-All names (ground arith),
)

first_normal :
    (names : List Bytes)
    → is_first_normal names ≡ true
    → (rest : List Bytes) → names ≢ codes "." ∷ rest
first_normal [] h rest same = cc
first_normal (name ∷ names) h rest same =
    let dot : name ≡ codes "." = cc in ground (arith, (text_eq_iff name (codes ".")).1 dot)

relative_path_is_safe-IsInside : (path : Bytes) → relative_path_is_safe path ≡ true → IsInside path
unfolding relative_path_is_safe IsInside
relative_path_is_safe-IsInside path safe = (
  λ rest same. let unsafe = subst (λ p. relative_path_is_safe p ≡ true) same safe in cc,
  λ same. let unsafe = subst (λ p. relative_path_is_safe p ≡ true) same safe in cc,
  first_normal (split b'/' path) (ground arith),
  all_normal-All (split b'/' path) (ground arith),
)

-- the path below a base, with a separator unless the base is empty or ends with one
unfoldable pub IsBelow : Bytes → Bytes → Bytes → Type 0
IsBelow path source out =
    (out ≡ path ++ source) × ((path ≡ []) ⊎ ((rest : Bytes) × (path ≡ rest ++ codes "/")))
    ⊎ (out ≡ path ++ codes "/" ++ source)

join_path-IsBelow : (path source : Bytes) → IsBelow path source (join_path path source)
unfolding join_path IsBelow
join_path-IsBelow [] source = inl (refl, inl refl)
join_path-IsBelow (c ∷ path) source = elim (Bool-cases (ends_with (c ∷ path) (codes "/"))) [
  | inl e ↦ rw e (inl (refl, inr (ends_with-append (c ∷ path) (codes "/") e)))
  | inr e ↦ rw e (inr refl)
]

-- the outcome for a source below a path: a remote URI as it is written, or a path inside
unfoldable pub StaysInside : Bytes → Bytes → ResolvedExtendSource → Type 0
StaysInside source path out =
    ((uri : SourceUri) × (parse_uri source ≡ ok (some uri))
      × (uri.scheme ≢ codes "file")
      × (uri.scheme ≢ codes "git+file")
      × (out.source ≡ source)
      × (out.inherited_temporary_base ≡ false))
    ⊎ ((parse_uri source ≡ ok none)
        × IsInside source
        × IsBelow path source out.source
        × (out.inherited_temporary_base ≡ true))

not_local :
    (uri : SourceUri)
    → package_source_uri_is_local_filesystem uri ≡ false
    → (uri.scheme ≢ codes "file") × (uri.scheme ≢ codes "git+file")
unfolding package_source_uri_is_local_filesystem
not_local uri h = (
  λ same. ground (arith, (text_eq_iff uri.scheme (codes "file")).1 same),
  λ same. ground (arith, (text_eq_iff uri.scheme (codes "git+file")).1 same),
)

module _ (T : Toml) where
  resolve_staged-StaysInside :
      (source path : Bytes) (uri : Option SourceUri) (out : ResolvedExtendSource)
      → parse_uri source ≡ ok uri
      → resolve_staged T source path uri ≡ ok out
      → StaysInside source path out
  unfolding resolve_staged StaysInside
  resolve_staged-StaysInside source path (some uri) out parsed done =
      elim (Bool-cases (package_source_uri_is_local_filesystem uri)) [
        | inl local ↦ absurd (ground arith)
        | inr remote ↦
            let (no_file, no_git) = not_local uri remote in
            inl (uri, parsed, no_file, no_git, ground arith, ground arith)
      ]
  resolve_staged-StaysInside source path none out parsed done =
      elim (Bool-cases (is_absolute source || not (relative_path_is_safe source))) [
        | inl unsafe ↦ absurd (ground arith)
        | inr safe ↦ inr (
          parsed,
          relative_path_is_safe-IsInside source (ground arith),
          subst (λ o. IsBelow path source o) (ground arith) (join_path-IsBelow path source),
          ground arith,
        )
      ]

  of_parse-eq-ok :
      (r : Result Bytes (Option SourceUri)) (uri : Option SourceUri)
      → of_parse T r ≡ ok uri
      → r ≡ ok uri
  of_parse-eq-ok (ok other) uri done = ap ok (ok-injective other uri done)
  of_parse-eq-ok (err e) uri done = absurd (cc)

  -- If a source resolves from a base in a temporary directory, it is a URI whose scheme is neither
  -- `file` nor `git+file`, which is kept as it is, or it is no URI but a path that is not empty,
  -- does not start with `/`, has no name `..` and no first name `.`, the outcome is the path of
  -- the base with this path behind it (and a `/` between them unless the base is empty or ends
  -- with one), and it counts as temporary itself.
  pub resolve_extend_source-StaysInside :
      (source : Bytes) (base : ExtendSourceBase) (out : ResolvedExtendSource)
      → base.temporary ≡ true
      → resolve_extend_source T source (some base) ≡ ok out
      → StaysInside source base.path out
  unfolding resolve_extend_source
  resolve_extend_source-StaysInside source base out temporary done =
      let (uri, parsed, resolved) =
        >>=-eq-ok (uri_of T source) (resolve_from T source (some base)) done in
      resolve_staged-StaysInside source base.path uri out
        (of_parse-eq-ok (parse_uri source) uri parsed)
        (subst
          (λ b.
            (if b
              then resolve_staged T source base.path uri
              else ok (resolve_plain source (some base) (is_uri uri)))
            ≡ ok out)
          temporary resolved)
