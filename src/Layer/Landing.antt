-- ===== src/Layer/Landing.antt =====
-- What lands on a projection: the state that the code of src/source/layer changes while a layer is
-- copied, and the reading and writing of TOML files.
use rototo.Base.{[], ◌∷◌, ◌++◌, Option, none, some, Result, ok, err, Bytes, Map, lookup, assign}
use rototo.Toml.{Toml, Value}
use rototo.Layer.Files.{FilePath, file, Files, put}
use rototo.Layer.Errors.{LayerError, unreadable, unparsable, unprintable}
use rototo.Layer.Places.{toml_suffix}

-- `LayerProvenance`, what does not change while a layer lands
pub record Contributor : Type 0 where
  pub label : Bytes
  pub nested : Map Bytes

-- what changes: the projection, `LayerProvenance::recorded` and `SiblingBases::provided`
pub record Landing : Type 0 where
  pub files : Files
  pub recorded : Map Bytes
  pub provided : Map Bytes

-- `LayerProvenance::record`
unfoldable pub record_variable : Contributor → Bytes → Landing → Landing
record_variable who id s =
    let source : Bytes = elim (lookup who.nested id) [ none ↦ who.label | some finer ↦ finer ] in
    record s { recorded = assign s.recorded id source }

-- the file with a name beside the files in the directory `dirs`
abbrev pub beside : FilePath → Bytes → FilePath
beside dirs name = dirs ++ name ∷ []

-- `<stem>.toml` in the directory
abbrev pub toml_beside : FilePath → Bytes → FilePath
toml_beside dirs stem = beside dirs (stem ++ toml_suffix)

module _ (T : Toml) where
  abbrev pub Checked : Type 0
  Checked = Result (LayerError T.Scalar) (Unit {0})

  abbrev pub Landed : Type 0
  Landed = Result (LayerError T.Scalar) Landing

  abbrev pub read_layer_toml :
      FilePath → Option Bytes → Result (LayerError T.Scalar) (Value T.Scalar)
  read_layer_toml path none = err (unreadable path)
  read_layer_toml path (some text) = elim (T.parse text) [
    | err message ↦ err (unparsable path message)
    | ok value ↦ ok value
  ]

  unfoldable pub write_layer_toml : Landing → FilePath → Value T.Scalar → Landed
  write_layer_toml s path value = elim (T.print value) [
    | err message ↦ err (unprintable message)
    | ok text ↦ ok (record s { files = put s.files path (file text) })
  ]
