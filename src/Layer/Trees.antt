-- ===== src/Layer/Trees.antt =====
-- A projection read as a layer: the tree of the directory that its files stand in.
use rototo.Base.{[], ◌∷◌, Option, some, if◌then◌else◌, Bytes, text_eq, text_less}
use rototo.Layer.Files.{
  FilePath, Node, Nodes, contents, directory, no_nodes, node, find_node, Entry, file, folder, Files,
}

-- an entry at its place in the order of the names
unfoldable pub set_node : Bytes → Node → Nodes → Nodes
set_node name entry no_nodes = node name entry no_nodes
set_node name entry (node n other nodes) =
    let rest = set_node name entry nodes in
    if text_eq n name
    then node name entry nodes
    else if text_less name n
    then node name entry (node n other nodes)
    else node n other rest

abbrev pub inner : Option Node → Nodes
inner (some (directory nodes)) = nodes
inner _ = no_nodes

abbrev pub node_of : Entry → Option Node → Node
node_of (file text) there = contents text
node_of folder there = directory (inner there)

unfoldable pub plant : FilePath → Entry → Nodes → Nodes
unfolding set_node find_node
plant [] entry nodes = nodes
plant (name ∷ []) entry nodes = set_node name (node_of entry (find_node nodes name)) nodes
plant (name ∷ next ∷ path) entry nodes =
    set_node name (directory (plant (next ∷ path) entry (inner (find_node nodes name)))) nodes

unfoldable pub tree_of : Files → Nodes
unfolding plant
tree_of [] = no_nodes
tree_of ((path, entry) ∷ files) = plant path entry (tree_of files)
