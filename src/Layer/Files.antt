-- ===== src/Layer/Files.antt =====
-- The files of src/source/layer: a layer is a tree of named entries in the order of their names, and
-- the projection that layers land on is a map from relative paths, which knows its directories.
-- File names are texts; a name that is not UTF-8 is outside of the model.
use rototo.Base.{
  Bool, true, false, ◌&&◌, List, [], ◌∷◌, Option, none, some, if◌then◌else◌, Bytes, text_eq,
}

-- the components of a relative path
abbrev pub FilePath : Type 0
FilePath = List Bytes

unfoldable pub same_path : FilePath → FilePath → Bool
same_path [] [] = true
same_path (x ∷ xs) (y ∷ ys) = text_eq x y && same_path xs ys
same_path _ _ = false

-- `path.strip_prefix(prefix)`
unfoldable pub below : FilePath → FilePath → Option FilePath
below [] path = some path
below (x ∷ xs) [] = none
below (x ∷ xs) (y ∷ ys) = if text_eq x y then below xs ys else none

mutual
  pub data Node : Type 0 where
    contents : Bytes → Node
    directory : Nodes → Node
    -- neither a file nor a directory
    special : Node

  pub data Nodes : Type 0 where
    no_nodes : Nodes
    node : Bytes → Node → Nodes → Nodes

unfoldable pub find_node : Nodes → Bytes → Option Node
find_node no_nodes name = none
find_node (node n entry nodes) name = if text_eq n name then some entry else find_node nodes name

unfoldable pub node_at : Node → FilePath → Option Node
unfolding find_node
node_at entry [] = some entry
node_at (directory nodes) (name ∷ path) = elim (find_node nodes name) [
  | none ↦ none
  | some entry ↦ node_at entry path
]
node_at _ _ = none

-- `std::fs::read` of a path of the layer
abbrev pub layer_file : Nodes → FilePath → Option Bytes
layer_file layer path = elim (node_at (directory layer) path) [
  | some (contents text) ↦ some text
  | _ ↦ none
]

abbrev pub is_layer_file : Nodes → FilePath → Bool
is_layer_file layer path = elim (layer_file layer path) [ none ↦ false | some text ↦ true ]

pub data Entry : Type 0 where
  file : Bytes → Entry
  folder : Entry

abbrev pub Files : Type 0
Files = List (FilePath × Entry)

unfoldable pub at : Files → FilePath → Option Entry
at [] path = none
at ((p, entry) ∷ files) path = if same_path p path then some entry else at files path

abbrev pub file_at : Files → FilePath → Option Bytes
file_at files path = elim (at files path) [ some (file text) ↦ some text | _ ↦ none ]

abbrev pub is_file : Files → FilePath → Bool
is_file files path = elim (file_at files path) [ none ↦ false | some text ↦ true ]

abbrev pub is_folder : Files → FilePath → Bool
is_folder files path = elim (at files path) [ some folder ↦ true | _ ↦ false ]

-- `std::fs::remove_file`
unfoldable pub remove_file : Files → FilePath → Files
remove_file [] path = []
remove_file ((p, entry) ∷ files) path =
    let rest = remove_file files path in if same_path p path then rest else (p, entry) ∷ rest

-- `std::fs::write`, `std::fs::copy` and `create_dir_all`, whose parents are there
unfoldable pub put : Files → FilePath → Entry → Files
put files path entry = (path, entry) ∷ remove_file files path

abbrev pub is_below : FilePath → FilePath → Bool
is_below above path = elim (below above path) [ none ↦ false | some rest ↦ true ]

-- `std::fs::remove_dir_all`
unfoldable pub remove_folder : Files → FilePath → Files
remove_folder [] path = []
remove_folder ((p, entry) ∷ files) path =
    let rest = remove_folder files path in if is_below path p then rest else (p, entry) ∷ rest
