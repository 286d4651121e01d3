-- ===== src/Layer/Extends.antt =====
-- What src/source/layer/graph.rs takes for one source: the sources that a package extends
-- (`package_extends_sources` of src/package.rs), and where each of them is.
use rototo.Base.{
  zero, Bool, true, false, ◌&&◌, ◌||◌, not, List, [], ◌∷◌, ◌++◌, Option, none, some, if◌then◌else◌,
  Result, ok, err, ◌>>=◌, ◌>>◌, guard, ℕ, suc, any, is_empty, length, Bytes, codes, text_eq,
  strip_prefix, starts_with, ends_with,
}
use rototo.Toml.{Toml, Value, Values, end_array, element, as_array, as_string, get_in}
use rototo.Layer.Files.{Nodes, layer_file}
use rototo.Layer.Places.{manifest_name}
use rototo.Layer.Sources.{
  StagedPackage, LoadedPackageSource, ExtendSourceBase, ResolvedExtendSource, World, GraphError,
  not_canonical, source_escapes, relative_escapes, uri_invalid, manifest_unparsable,
  extends_no_array, extends_no_string, extends_blank, extends_spaced,
}
use rototo.Layer.Uri.{SourceUri, parse_uri, is_absolute, relative_path_is_safe}

-- The texts of the characters that `trim` removes, which are those of Unicode's White_Space.
abbrev spaces : List Bytes
spaces =
    (9 ∷ [])
    ∷ (10 ∷ [])
    ∷ (11 ∷ [])
    ∷ (12 ∷ [])
    ∷ (13 ∷ [])
    ∷ (32 ∷ [])
    ∷ (194 ∷ 133 ∷ [])
    ∷ (194 ∷ 160 ∷ [])
    ∷ (225 ∷ 154 ∷ 128 ∷ [])
    ∷ (226 ∷ 128 ∷ 128 ∷ [])
    ∷ (226 ∷ 128 ∷ 129 ∷ [])
    ∷ (226 ∷ 128 ∷ 130 ∷ [])
    ∷ (226 ∷ 128 ∷ 131 ∷ [])
    ∷ (226 ∷ 128 ∷ 132 ∷ [])
    ∷ (226 ∷ 128 ∷ 133 ∷ [])
    ∷ (226 ∷ 128 ∷ 134 ∷ [])
    ∷ (226 ∷ 128 ∷ 135 ∷ [])
    ∷ (226 ∷ 128 ∷ 136 ∷ [])
    ∷ (226 ∷ 128 ∷ 137 ∷ [])
    ∷ (226 ∷ 128 ∷ 138 ∷ [])
    ∷ (226 ∷ 128 ∷ 168 ∷ [])
    ∷ (226 ∷ 128 ∷ 169 ∷ [])
    ∷ (226 ∷ 128 ∷ 175 ∷ [])
    ∷ (226 ∷ 129 ∷ 159 ∷ [])
    ∷ (227 ∷ 128 ∷ 128 ∷ [])
    ∷ []

abbrev behind_space : List Bytes → Bytes → Option Bytes
behind_space [] text = none
behind_space (space ∷ spaces) text = elim (strip_prefix text space) [
  | some rest ↦ some rest
  | none ↦ behind_space spaces text
]

-- `text.trim().is_empty()`; the first argument bounds the number of characters
unfoldable pub is_blank : ℕ → Bytes → Bool
unfolding strip_prefix
is_blank zero text = is_empty text
is_blank (suc n) text = elim (behind_space spaces text) [
  | none ↦ is_empty text
  | some rest ↦ is_blank n rest
]

-- `text.trim() != text`
unfoldable pub is_spaced : Bytes → Bool
unfolding any starts_with ends_with
is_spaced text = any (λ space. starts_with text space || ends_with text space) spaces

abbrev pub is_uri : Option SourceUri → Bool
is_uri none = false
is_uri (some uri) = true

unfoldable pub package_source_uri_is_local_filesystem : SourceUri → Bool
package_source_uri_is_local_filesystem uri =
    text_eq uri.scheme (codes "file") || text_eq uri.scheme (codes "git+file")

-- `base.path.join(source)` of a relative source
unfoldable pub join_path : Bytes → Bytes → Bytes
join_path [] source = source
join_path (c ∷ path) source =
    if ends_with (c ∷ path) (codes "/")
    then (c ∷ path) ++ source
    else (c ∷ path) ++ codes "/" ++ source

abbrev pub kept : Bytes → ResolvedExtendSource
kept source = record { source = source; inherited_temporary_base = false }

abbrev pub resolve_plain : Bytes → Option ExtendSourceBase → Bool → ResolvedExtendSource
resolve_plain source none is_remote = kept source
resolve_plain source (some base) is_remote =
    if is_remote || is_absolute source
    then kept source
    else record { source = join_path base.path source; inherited_temporary_base = false }

module _ (T : Toml) where
  -- the loop over the items of `extends`
  unfoldable pub extends_items : Values T.Scalar → Result (GraphError T.Scalar) (List Bytes)
  unfolding is_blank is_spaced
  extends_items end_array = ok []
  extends_items (element item items) = elim (as_string item) [
    | none ↦ err extends_no_string
    | some source ↦ do
      guard (not (is_blank (length source) source)) extends_blank
      guard (not (is_spaced source)) extends_spaced
      rest ← extends_items items
      ok (source ∷ rest)
  ]

  unfoldable pub package_extends_sources :
      Value T.Scalar → Result (GraphError T.Scalar) (List Bytes)
  unfolding extends_items
  package_extends_sources manifest = elim (get_in manifest (codes "extends")) [
    | none ↦ ok []
    | some extends ↦ elim (as_array extends) [
      | none ↦ err extends_no_array
      | some items ↦ extends_items items
    ]
  ]

  unfoldable pub read_package_extends : Nodes → Result (GraphError T.Scalar) (List Bytes)
  unfolding package_extends_sources
  read_package_extends root = elim (layer_file root (manifest_name ∷ [])) [
    | none ↦ ok []
    | some text ↦ elim (T.parse text) [
      | err message ↦ err (manifest_unparsable message)
      | ok manifest ↦ package_extends_sources manifest
    ]
  ]

  abbrev pub of_parse :
      Result Bytes (Option SourceUri) → Result (GraphError T.Scalar) (Option SourceUri)
  of_parse (ok uri) = ok uri
  of_parse (err e) = err (uri_invalid e)

  abbrev pub uri_of : Bytes → Result (GraphError T.Scalar) (Option SourceUri)
  uri_of source = of_parse (parse_uri source)

  -- from a base that is staged in a temporary directory
  unfoldable pub resolve_staged :
      Bytes → Bytes → Option SourceUri → Result (GraphError T.Scalar) ResolvedExtendSource
  unfolding package_source_uri_is_local_filesystem relative_path_is_safe
  resolve_staged source path (some uri) =
      if package_source_uri_is_local_filesystem uri
      then err (source_escapes source)
      else ok (kept source)
  resolve_staged source path none =
      if is_absolute source || not (relative_path_is_safe source)
      then err (relative_escapes source)
      else ok (record { source = join_path path source; inherited_temporary_base = true })

  abbrev pub resolve_from :
      Bytes
      → Option ExtendSourceBase
      → Option SourceUri
      → Result (GraphError T.Scalar) ResolvedExtendSource
  resolve_from source none uri = ok (resolve_plain source none (is_uri uri))
  resolve_from source (some base) uri =
      if base.temporary
      then resolve_staged source base.path uri
      else ok (resolve_plain source (some base) (is_uri uri))

  unfoldable pub resolve_extend_source :
      Bytes → Option ExtendSourceBase → Result (GraphError T.Scalar) ResolvedExtendSource
  unfolding parse_uri resolve_staged join_path
  resolve_extend_source source base = do uri ← uri_of source; resolve_from source base uri

  unfoldable pub package_source_key :
      World → Bytes → StagedPackage → Result (GraphError T.Scalar) Bytes
  unfolding parse_uri
  package_source_key world source staged = do
    uri ← uri_of source
    let path = if is_empty source then staged.path else source
    if is_uri uri then ok source else (elim (world.canonicalize path) [
      | err e ↦ err (not_canonical path e)
      | ok key ↦ ok key
    ])

  -- the staged path, or the one source of a package that was copied from a local path
  unfoldable pub extend_source_base_path : LoadedPackageSource → Bytes
  unfolding parse_uri
  extend_source_base_path loaded = elim loaded.layers [
    | (layer ∷ []) ↦
        if loaded.staged.is_temporary
          && (elim (parse_uri layer.source) [ ok (some uri) ↦ false | _ ↦ true ])
        then layer.source
        else loaded.staged.path
    | _ ↦ loaded.staged.path
  ]
