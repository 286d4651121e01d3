-- ===== src/Layer/Settled.antt =====
-- Outcomes that the fuel does not decide: those of one source and of the sources that it extends.
use rototo.Base.{
  Bool, true, false, not, List, [], ◌∷◌, Option, none, some, Result, ok, err, ◌>>=◌, ◌>>◌, guard,
  length, Bytes, ◌≡◌, refl, ap, arith, inl, inr, Option-cases, Result-cases, codes,
}
use rototo.Toml.{Toml, Value, Values, end_array, element, as_array, as_string, get_in}
use rototo.Layer.Files.{Nodes, layer_file}
use rototo.Layer.Places.{manifest_name}
use rototo.Layer.Uri.{SourceUri, parse_uri}
use rototo.Layer.Sources.{
  StagedPackage, ExtendSourceBase, World, GraphError, out_of_fuel, extends_blank, extends_spaced,
}
use rototo.Layer.Extends.{
  read_package_extends, extends_items, package_extends_sources, uri_of, of_parse, resolve_from,
  resolve_staged, resolve_extend_source, package_source_key, is_blank, is_spaced,
}

abbrev is_out_of_fuel : {S : Type 0} → GraphError S → Bool
is_out_of_fuel out_of_fuel = true
is_out_of_fuel e = false

abbrev pub settled : {S : Type 0} {A : Type 0} → Result (GraphError S) A → Bool
settled (ok a) = true
settled (err e) = not (is_out_of_fuel e)

module _ {S : Type 0} {B : Type 0} where
  pub settled-bind :
      {A : Type 0} (first : Result (GraphError S) A) (next : A → Result (GraphError S) B)
      → settled first ≡ true
      → ((a : A) → settled (next a) ≡ true)
      → settled (first >>= next) ≡ true
  settled-bind (ok a) next h k = k a
  settled-bind (err e) next h k = h

  settled-guard :
      (test : Bool) (e : GraphError S) (next : Result (GraphError S) B)
      → is_out_of_fuel e ≡ false
      → settled next ≡ true
      → settled (guard test e >> next) ≡ true
  settled-guard true e next h k = k
  settled-guard false e next h k = ap not h

module _ (T : Toml) where
  abbrev followed : Values T.Scalar → Bytes → Result (GraphError T.Scalar) (List Bytes)
  followed items source = extends_items T items >>= λ rest. ok (source ∷ rest)

  abbrev spaced : Values T.Scalar → Bytes → Result (GraphError T.Scalar) (List Bytes)
  spaced items source = guard (not (is_spaced source)) extends_spaced >> followed items source

  extends_items-settles : (items : Values T.Scalar) → settled (extends_items T items) ≡ true
  unfolding extends_items
  extends_items-settles end_array = refl
  extends_items-settles (element item items) = elim (Option-cases (as_string item)) [
    | inl missing ↦ rw (extends_items, missing) refl
    | inr (source, is_text) ↦
        rw (extends_items, is_text)
          (settled-guard (not (is_blank (length source) source)) extends_blank (spaced items source)
            refl
            (settled-guard (not (is_spaced source)) extends_spaced (followed items source) refl (
              settled-bind (extends_items T items) (λ rest. ok (source ∷ rest))
                (extends_items-settles items) (λ rest. refl))))
  ]

  package_extends_sources-settles :
      (manifest : Value T.Scalar) → settled (package_extends_sources T manifest) ≡ true
  unfolding package_extends_sources
  package_extends_sources-settles manifest =
      elim (Option-cases (get_in manifest (codes "extends"))) [
        | inl missing ↦ rw (package_extends_sources, missing) refl
        | inr (extends, given) ↦ elim (Option-cases (as_array extends)) [
          | inl other ↦ rw (package_extends_sources, given, other) refl
          | inr (items, is_array) ↦
              rw (package_extends_sources, given, is_array) (extends_items-settles items)
        ]
      ]

  pub read_package_extends-settles : (root : Nodes) → settled (read_package_extends T root) ≡ true
  unfolding read_package_extends
  read_package_extends-settles root = elim (Option-cases (layer_file root (manifest_name ∷ []))) [
    | inl missing ↦ rw (read_package_extends, missing) refl
    | inr (text, given) ↦ elim (Result-cases (T.parse text)) [
      | inr (e, failed) ↦ rw (read_package_extends, given, failed) refl
      | inl (manifest, parsed) ↦
          rw (read_package_extends, given, parsed) (package_extends_sources-settles manifest)
    ]
  ]

  of_parse-settles : (r : Result Bytes (Option SourceUri)) → settled (of_parse T r) ≡ true
  of_parse-settles (ok uri) = refl
  of_parse-settles (err e) = refl

  resolve_staged-settles :
      (source path : Bytes) (uri : Option SourceUri)
      → settled (resolve_staged T source path uri) ≡ true
  unfolding resolve_staged
  resolve_staged-settles source path none = ground arith
  resolve_staged-settles source path (some uri) = ground arith

  pub resolve_extend_source-settles :
      (source : Bytes) (base : Option ExtendSourceBase)
      → settled (resolve_extend_source T source base) ≡ true
  unfolding resolve_extend_source
  resolve_extend_source-settles source base =
      settled-bind (uri_of T source) (resolve_from T source base)
        (of_parse-settles (parse_uri source)) from
    where
      from : (uri : Option SourceUri) → settled (resolve_from T source base uri) ≡ true
      from uri = ground (arith, resolve_staged-settles source)

  pub package_source_key-settles :
      (world : World) (source : Bytes) (staged : StagedPackage)
      → settled (package_source_key T world source staged) ≡ true
  unfolding package_source_key
  package_source_key-settles world source staged =
      settled-bind (uri_of T source) _ (of_parse-settles (parse_uri source)) (λ uri. ground arith)
