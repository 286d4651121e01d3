-- ===== src/Layer/Tests.antt =====
-- Runs of the composition of layers, and the properties at concrete layers.
use rototo.Base.{
  Bool, true, false, List, [], ◌∷◌, Option, none, some, ◌≡◌, refl, sym, ◌+◌, ◌⊎◌, arith, inl, inr,
  Bool-cases, ok, Bytes, codes, Result, text_eq, strip_suffix, ends_with, assign,
}
use rototo.Toml.{Toml, Value, Values, string, element, end_array, table, end_table, pair, get}
use rototo.Governance.Contract.{operation_allowed, find_block}
use rototo.Governance.Parse.{read_governance_contract}
use rototo.Layer.Places.{governance_name}
use rototo.Layer.Markers.{HasNoMarkers, is_marker}
use rototo.Layer.MarkerShapes.{IsMarker-is_marker}
use rototo.Layer.MarkerPaths.{IsUnmarked, copy_package_layer-IsUnmarked}
use rototo.Layer.Closed.{IsClosed, is_protected}
use mathlib.Core.Path.{subst}
use rototo.Layer.FilesLaws.{same_path-eq}
use rototo.Layer.Walk.{Every}
use rototo.Layer.Members.{compose_members, same_value, add_members, contains, has_members}
use rototo.Layer.MembersLaws.{count, united, compose_members-count}
use rototo.Toml.Fields.{IsProper}
use rototo.Layer.Merge.{deep_merge}
use rototo.Layer.MergeLaws.{IsSilentAt, IsLeaf, value_at, deep_merge_at}
use rototo.Layer.SameValue.{IsPartialEq}
use rototo.Layer.ClosedProjection.{KeepsKinds, closed_projection}
use rototo.Layer.Files.{
  FilePath, same_path, Nodes, contents, directory, no_nodes, node, file, folder, Files, at, is_file,
  put, below, remove_file, remove_folder, file_at,
}
use rototo.Layer.Landing.{Landing, beside, record_variable}
use rototo.Layer.Copy.{Sidecar, copy_package_layer}
use rototo.Layer.Enforce.{enforce_layer_governance}

-- a document of one text
abbrev toml : Toml
toml = record {
  Scalar = Unit {0};
  same_scalar = λ a b. true;
  parse = λ text. ok (table (pair (codes "description") (string text) end_table));
  print = λ value. ok (codes "printed");
}

abbrev sidecar : Sidecar
sidecar = record { parse_labels = λ text. none; print_labels = λ labels. ok (codes "labels") }

abbrev variables_dir : FilePath
variables_dir = codes "variables" ∷ []

abbrev projection : Files
projection =
    (variables_dir, folder) ∷ (beside variables_dir (codes "x.toml"), file (codes "a")) ∷ []

abbrev adding : Nodes
adding =
    node (codes "variables") (directory (node (codes "y.toml") (contents (codes "b")) no_nodes))
      no_nodes

-- a plain file where the projection has a directory
abbrev in_the_way : Nodes
in_the_way = node (codes "variables") (contents (codes "b")) no_nodes

-- whether a base's variable is there behind an accepted layer that has landed
file_after : Nodes → Option (Option Bool)
unfolding enforce_layer_governance copy_package_layer at same_path text_eq strip_suffix ends_with
    put remove_file remove_folder record_variable assign
file_after layer = elim (enforce_layer_governance toml layer projection) [
  | Result.err e ↦ none
  | ok u ↦ elim (copy_package_layer toml sidecar layer true (codes "top") false projection []) [
    | Result.err e ↦ some none
    | ok next ↦ some (some (is_file next.files (beside variables_dir (codes "x.toml"))))
  ]
]

added : file_after adding ≡ some (some true)
unfolding file_after
added = refl

-- A contract that allows nothing accepts a file in the place of a directory, which removes what the
-- directory holds.
removed : file_after in_the_way ≡ some (some false)
unfolding file_after
removed = refl

abbrev in_folder : Nodes
in_folder =
    node (codes "variables") (directory (node (codes "x.toml") (directory no_nodes) no_nodes))
      no_nodes

-- A directory in the place of a file does the same.
removed_file : file_after in_folder ≡ some (some false)
unfolding file_after
removed_file = refl

projection-IsClosed :
    IsClosed (read_governance_contract toml (file_at projection (governance_name ∷ [])))
unfolding at same_path text_eq read_governance_contract operation_allowed find_block
projection-IsClosed kind id o = refl

x_free : is_marker (beside variables_dir (codes "x.toml")) ≡ false
unfolding is_marker strip_suffix ends_with text_eq
x_free = refl

no_markers : HasNoMarkers projection
unfolding at
no_markers path m = elim (Bool-cases (same_path variables_dir path)) [
  | inl e ↦ ground arith
  | inr e ↦ elim (Bool-cases (same_path (beside variables_dir (codes "x.toml")) path)) [
    | inr d ↦ ground arith
    | inl d ↦
        let same = same_path-eq (beside variables_dir (codes "x.toml")) path d in
        absurd (ground (arith, x_free, subst (λ q. is_marker q ≡ true) (sym same) m))
  ]
]

abbrev start : Landing
start = record { files = projection; recorded = []; provided = [] }

-- what the copy of the added variable leads to
landed_with : Nodes → Bool → Landing
unfolding copy_package_layer at same_path text_eq strip_suffix ends_with put remove_file
    remove_folder record_variable assign
landed_with layer siblings =
    elim (copy_package_layer toml sidecar layer true (codes "top") siblings projection []) [
      | ok next ↦ next
      | Result.err e ↦ start
    ]

x_protected : is_protected projection variables_dir (codes "x.toml") ≡ true
unfolding is_protected strip_suffix ends_with text_eq
x_protected = refl

x_there : is_file projection (beside variables_dir (codes "x.toml")) ≡ true
unfolding at same_path text_eq
x_there = refl

adding_fits : KeepsKinds (beside variables_dir (codes "x.toml")) adding
unfolding Every same_path text_eq below
adding_fits = ((refl, ((λ h. cc), tt)), tt)

adding_accepted : enforce_layer_governance toml adding projection ≡ ok tt
unfolding enforce_layer_governance at same_path text_eq strip_suffix ends_with
adding_accepted = refl

adding_copied :
    copy_package_layer toml sidecar adding true (codes "top") false projection []
    ≡ ok (landed_with adding false)
unfolding landed_with
adding_copied = refl

closed_projection_example :
    at (landed_with adding false).files (beside variables_dir (codes "x.toml"))
    ≡ at projection (beside variables_dir (codes "x.toml"))
closed_projection_example =
    closed_projection toml sidecar adding projection variables_dir (codes "x.toml")
      projection-IsClosed no_markers x_protected x_there true (codes "top") []
      (landed_with adding false) adding_fits adding_accepted adding_copied

projection-IsUnmarked : IsUnmarked projection
projection-IsUnmarked path marker = no_markers path (IsMarker-is_marker path marker)

copy_package_layer-IsUnmarked_example : IsUnmarked (landed_with adding false).files
copy_package_layer-IsUnmarked_example =
    copy_package_layer-IsUnmarked toml sidecar adding true false (codes "top") projection []
      (landed_with adding false) projection-IsUnmarked adding_copied

abbrev item : Bytes → Value (Unit {0})
item text = string text

abbrev only : Bytes → Values (Unit {0})
only text = element (item text) end_array

partial_eq : IsPartialEq toml
partial_eq = (λ a b h. refl, λ a b c h k. refl)

members_composed :
    compose_members toml
      (element (item (codes "a")) (only (codes "b")))
      (some (only (codes "c")))
      (some (only (codes "a")))
      variables_dir
    ≡ ok (element (item (codes "b")) (only (codes "c")))
unfolding compose_members text_eq same_value add_members
members_composed = refl

abbrev added_members : Values (Unit {0})
added_members = element (item (codes "b")) (only (codes "c"))

compose_members-count_example :
    ((v : Value (Unit {0}))
      → (count toml partial_eq added_members v + count toml partial_eq (only (codes "a")) v
          ≡ united toml partial_eq
              (element (item (codes "a")) (only (codes "b")))
              (only (codes "c"))
              v)
        × (contains toml (only (codes "a")) v ≡ true → contains toml (only (codes "c")) v ≡ false))
    × ((some (only (codes "a")) ≡ none) ⊎ (has_members toml added_members ≡ true))
compose_members-count_example =
    compose_members-count toml partial_eq (element (item (codes "a")) (only (codes "b")))
      (some (only (codes "c"))) (some (only (codes "a"))) variables_dir added_members
      members_composed

abbrev base_entry : Value (Unit {0})
base_entry = table (
    pair (codes "name") (string (codes "old"))
      (pair (codes "price") (table (pair (codes "usd") (string (codes "1")) end_table)) end_table))

abbrev entry_update : Value (Unit {0})
entry_update =
    table
      (pair (codes "price") (table (pair (codes "eur") (string (codes "2")) end_table)) end_table)

entry_update-IsProper : IsProper entry_update
unfolding IsProper get
entry_update-IsProper = (refl, (refl, tt, tt), tt)

abbrev usd : List Bytes
usd = codes "price" ∷ codes "usd" ∷ []

deep_merge_at_example :
    (IsSilentAt entry_update usd
      → value_at (deep_merge base_entry entry_update) usd ≡ value_at base_entry usd)
    × ((leaf : Value (Unit {0}))
        → IsLeaf leaf
        → value_at entry_update usd ≡ some leaf
        → value_at (deep_merge base_entry entry_update) usd ≡ some leaf)
deep_merge_at_example = deep_merge_at base_entry entry_update usd entry_update-IsProper
