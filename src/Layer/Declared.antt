-- ===== src/Layer/Declared.antt =====
-- src/source/layer/enforce.rs: what a projection declares. An id with a segment `..` is outside of the
-- model.
use rototo.Base.{
  Bool, true, ◌||◌, List, [], ◌∷◌, ◌++◌, Option, none, some, if◌then◌else◌, Bytes, codes, text_eq,
  split, join, is_empty,
}
use rototo.Layer.Files.{FilePath, Files, is_file, is_folder}
use rototo.Layer.Landing.{beside}
use rototo.Layer.Places.{toml_suffix, schema_suffix}

-- the names of a path that is written as a text
unfoldable pub names : List Bytes → FilePath
names [] = []
names (name ∷ rest) =
    let more = names rest in if is_empty name || text_eq name (codes ".") then more else name ∷ more

abbrev pub path_of : Bytes → FilePath
path_of text = names (split b'/' text)

abbrev pub catalog_schema : Bytes → FilePath
catalog_schema id = path_of (codes "model/catalogs/" ++ id ++ schema_suffix)

abbrev pub context_schema : Bytes → FilePath
context_schema id = path_of (codes "model/context/" ++ id ++ schema_suffix)

abbrev pub list_file : Bytes → FilePath
list_file id = path_of (codes "lists/" ++ id ++ toml_suffix)

unfoldable pub declared_below : Files → Bytes → Bytes → Bool
unfolding names
declared_below files kind id =
    if text_eq kind (codes "catalog")
    then is_file files (catalog_schema id)
    else if text_eq kind (codes "list")
    then is_file files (list_file id)
    else if text_eq kind (codes "variable")
    then is_file files (path_of (codes "variables/" ++ id ++ toml_suffix))
    else if text_eq kind (codes "evaluation_context")
    then is_file files (context_schema id)
    else if text_eq kind (codes "layer")
    then is_file files (path_of (codes "layers/" ++ id ++ toml_suffix))
    else true

unfoldable pub any_declared_below : Files → Bool
any_declared_below files =
    is_folder files (codes "model" ∷ [])
    || is_folder files (codes "variables" ∷ [])
    || is_folder files (codes "data" ∷ [])
    || is_folder files (codes "layers" ∷ [])

-- the longest of the leading names that a catalog's schema is declared for, and the names behind
unfoldable pub governing_catalog : Files → FilePath → FilePath → Option (FilePath × FilePath)
unfolding names
governing_catalog files before [] = none
governing_catalog files before (name ∷ rest) =
    elim (governing_catalog files (beside before name) rest) [
      | some found ↦ some found
      | none ↦
          if is_file files (catalog_schema (join b'/' (beside before name)))
          then some (beside before name, rest)
          else none
    ]

abbrev pub entry_name : FilePath → Bytes → Bytes
entry_name namespace stem =
    if is_empty namespace then stem else join b'/' namespace ++ codes "/" ++ stem
