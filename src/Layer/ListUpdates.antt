-- ===== src/Layer/ListUpdates.antt =====
-- The arms of `compose_package_layer_file` of src/source/layer/compose.rs for lists, and for plain
-- files that restate one.
use rototo.Base.{
  ◌||◌, [], ◌∷◌, none, some, if◌then◌else◌, ok, err, ◌>>=◌, ◌>>◌, guard, Bytes, codes, text_eq,
  strip_suffix, join,
}
use rototo.Toml.{Toml, Value, Table, table, end_table, pair, get, insert}
use rototo.Layer.Files.{FilePath, file_at, is_file, below}
use rototo.Layer.Errors.{LayerError, no_list_to_update, list_update_sets}
use rototo.Layer.Places.{toml_suffix, update_suffix}
use rototo.Layer.Members.{compose_list_members}
use rototo.Layer.Landing.{
  Landing, beside, toml_beside, Checked, Landed, read_layer_toml, write_layer_toml,
}
use rototo.Layer.Updates.{or_blank}

module _ (T : Toml) where
  -- a plain file over one that is there: the same bytes, or an error
  abbrev pub restate : Landing → FilePath → Bytes → LayerError T.Scalar → Landed T
  restate s relative text denied = elim (file_at s.files relative) [
    | none ↦ err denied
    | some below_text ↦ if text_eq text below_text then ok s else err denied
  ]

  -- the loop over the keys of a list update
  unfoldable pub check_list_update : FilePath → Table T.Scalar → Checked T
  check_list_update relative end_table = ok tt
  check_list_update relative (pair key value update) = do
    guard
        (text_eq key (codes "members")
          || text_eq key (codes "deleted")
          || text_eq key (codes "description"))
        (list_update_sets relative key)
    check_list_update relative update

  abbrev pub checked_list_update : FilePath → Value T.Scalar → Checked T
  checked_list_update relative (table overlay) = check_list_update relative overlay
  checked_list_update relative _ = ok tt

  abbrev pub with_description : Value T.Scalar → Value T.Scalar → Value T.Scalar
  with_description (table base) (table overlay) = elim (get overlay (codes "description")) [
    | none ↦ table base
    | some description ↦ table (insert base (codes "description") description)
  ]
  with_description base overlay = base

  unfoldable pub update_list_at : Landing → FilePath → FilePath → Bytes → Landed T
  unfolding compose_list_members
  update_list_at s relative base_path text = do
    guard (is_file s.files base_path) (no_list_to_update relative)
    overlay ← read_layer_toml T relative (some text)
    checked_list_update relative overlay
    base ← read_layer_toml T base_path (file_at s.files base_path)
    composed ← compose_list_members T (with_description base overlay) overlay relative
    write_layer_toml T s base_path composed

  unfoldable pub update_list : Landing → FilePath → Bytes → Bytes → Landed T
  update_list s dirs name text = elim (strip_suffix name update_suffix) [
    | none ↦ err (no_list_to_update (beside dirs name))
    | some stem ↦ update_list_at s (beside dirs name) (toml_beside dirs stem) text
  ]

  -- the id that the error of a restated list names
  abbrev pub list_id : FilePath → Bytes
  list_id relative = elim (below (codes "lists" ∷ []) relative) [
    | none ↦ []
    | some rest ↦ or_blank T (strip_suffix (join b'/' rest) toml_suffix)
  ]
