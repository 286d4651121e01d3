-- ===== src/Layer/GraphTests.antt =====
-- Runs of the load of a package, and its properties at concrete packages.
use rototo.Base.{
  arith, true, false, List, [], ◌∷◌, none, some, Result, ok, err, ◌≡◌, refl, ◌≢◌, Bytes, codes,
  text_eq, if◌then◌else◌, map, strip_suffix, ends_with, is_empty,
}
use rototo.Toml.{Toml, Value, string, element, end_array, array, table, end_table, pair}
use rototo.Toml.{get}
use rototo.Layer.Files.{node_at, at, put, same_path, remove_file, Nodes, contents, no_nodes, node}
use rototo.Layer.Places.{manifest_name}
use rototo.Layer.Copy.{Sidecar}
use rototo.Layer.Sources.{
  LoadedPackageSource, ExtendSourceBase, World, GraphError, out_of_fuel, cycle_detected,
  relative_escapes, ResolvedExtendSource,
}
use rototo.Layer.Single.{Stages, borrow, world_of, load_single}
use rototo.Layer.Extends.{resolve_extend_source}
use rototo.Layer.Graph.{
  land_child, find_source, Found, Gathered, nothing_gathered, land_base, cycle_from, push_key,
  load_package_source_graph, load_package_source,
}
use rototo.Layer.GraphStack.{load-stack}
use rototo.Layer.GraphFuel.{load_package_source-ends}
use rototo.Layer.GraphLandings.{
  IsFound, LandsBeside, LandsOn, land_base_iff, land_child_iff, find_source_iff,
}
use rototo.Layer.GraphLoads.{Loads, alone, over, no_bases, and_base, load_package_source-Loads}
use rototo.Layer.GraphComplete.{Fits, load_package_source-Fits}
use rototo.Layer.GraphLayers.{AgreesWithLayers}
use rototo.Layer.LoadedLayers.{load_package_source-AgreesWithLayers}
use rototo.Layer.Escapes.{StaysInside, resolve_extend_source-StaysInside}

abbrev extending : Bytes → Value (Unit {0})
extending source =
    table (pair (codes "extends") (array (element (string source) end_array)) end_table)

-- a manifest is the source that it extends, or empty
abbrev toml : Toml
toml = record {
  Scalar = Unit {0};
  same_scalar = λ a b. true;
  parse = λ text. if is_empty text then ok (table end_table) else ok (extending text);
  print = λ value. ok (codes "printed");
}

abbrev sidecar : Sidecar
sidecar = record { parse_labels = λ text. none; print_labels = λ labels. ok (codes "labels") }

abbrev manifest : Bytes → Nodes
manifest text = node manifest_name (contents text) no_nodes

-- /a extends b, which stands below it, and /l extends itself
abbrev stages : Stages
stages = record {
  tree_at = λ path.
      if text_eq path (codes "/a")
      then manifest (codes "b")
      else if text_eq path (codes "/l")
      then manifest (codes "/l")
      else manifest [];
  copy_dir = λ path. err (codes "no copy");
  fetch_archive = λ uri source. err (codes "no archive");
  clone_git = λ uri source. err (codes "no clone");
}

abbrev world : World
world = world_of stages borrow ok (codes "/tmp/package")

abbrev loaded_of : Result (GraphError (Unit {0})) LoadedPackageSource → LoadedPackageSource
loaded_of (ok loaded) = loaded
loaded_of (err e) = record {
  staged = record { path = []; tree = no_nodes; is_temporary = false };
  fingerprint = none;
  immutable = true;
  layers = [];
}

-- the sources of the layers of a load, or none for an error
sources_of : Result (GraphError (Unit {0})) LoadedPackageSource → List Bytes
sources_of outcome = map (λ layer. layer.source) (loaded_of outcome).layers

run : Bytes → Result (GraphError (Unit {0})) LoadedPackageSource
unfolding load_package_source text_eq ends_with strip_suffix
run source = load_package_source toml sidecar world source

-- a base comes before the package that extends it
in_order : sources_of (run (codes "/a")) ≡ codes "/a/b" ∷ codes "/a" ∷ []
unfolding run sources_of load_single node_at get at put same_path remove_file
in_order = refl

-- a package that extends itself
cyclic : run (codes "/l") ≡ err (cycle_detected (codes "/l" ∷ codes "/l" ∷ []))
unfolding run load_single node_at get
cyclic = refl

load-stack_example :
    (load_package_source_graph toml sidecar world 3 (codes "/a") none (codes "/z" ∷ [])).1
    ≡ codes "/z" ∷ []
load-stack_example = load-stack toml sidecar world 3 (codes "/a") none (codes "/z" ∷ [])

load_package_source-ends_example :
    load_package_source toml sidecar world (codes "/l") ≢ err out_of_fuel
load_package_source-ends_example = load_package_source-ends toml sidecar world (codes "/l")

a_loads : load_package_source toml sidecar world (codes "/a") ≡ ok (loaded_of (run (codes "/a")))
unfolding run load_package_source text_eq ends_with strip_suffix load_single node_at get at put
    same_path remove_file
a_loads = refl

load_package_source-Loads_example :
    Loads toml sidecar world (codes "/a") none (loaded_of (run (codes "/a")))
load_package_source-Loads_example =
    load_package_source-Loads toml sidecar world (codes "/a") (loaded_of (run (codes "/a"))) a_loads

load_package_source-AgreesWithLayers_example : AgreesWithLayers (loaded_of (run (codes "/a")))
load_package_source-AgreesWithLayers_example =
    load_package_source-AgreesWithLayers stages toml sidecar borrow ok (codes "/tmp/package")
      (codes "/a") (loaded_of (run (codes "/a"))) a_loads

abbrev staged_base : ExtendSourceBase
staged_base = record { path = codes "/tmp/p"; temporary = true }

abbrev below_base : ResolvedExtendSource
below_base = record { source = codes "/tmp/p/b/c"; inherited_temporary_base = true }

b_resolves : resolve_extend_source toml (codes "b/c") (some staged_base) ≡ ok below_base
unfolding resolve_extend_source text_eq ends_with strip_suffix
b_resolves = refl

resolve_extend_source-StaysInside_example : StaysInside (codes "b/c") (codes "/tmp/p") below_base
resolve_extend_source-StaysInside_example =
    resolve_extend_source-StaysInside toml (codes "b/c") staged_base below_base refl b_resolves

-- `..` would leave the staged package
escaping :
    resolve_extend_source toml (codes "b/../../c") (some staged_base)
    ≡ err (relative_escapes (codes "b/../../c"))
unfolding resolve_extend_source text_eq ends_with strip_suffix
escaping = refl

abbrev found_at : Bytes → Bytes → Found
found_at path text = record {
  loaded = record {
    staged = record { path = path; tree = manifest text; is_temporary = false };
    fingerprint = none;
    immutable = false;
    layers = record { source = path; fingerprint = none; immutable = false } ∷ [];
  };
  inherited = false;
  key = path;
}

abbrev found_a : Found
found_a = found_at (codes "/a") (codes "b")

abbrev found_b : Found
found_b = found_at (codes "/a/b") []

abbrev a_base : ExtendSourceBase
a_base = record { path = codes "/a"; temporary = false }

abbrev gathered_of : Result (GraphError (Unit {0})) Gathered → Gathered
gathered_of (ok g) = g
gathered_of (err e) = nothing_gathered

-- b, landed alone
b_lands : Gathered
unfolding land_base text_eq ends_with strip_suffix
b_lands = gathered_of (land_base toml sidecar world nothing_gathered (codes "b") found_b.loaded)

outer_source : IsFound toml sidecar world (codes "/a") none found_a
unfolding IsFound find_source resolve_extend_source text_eq ends_with strip_suffix load_single
outer_source = (find_source_iff toml sidecar world (codes "/a") none found_a).0 refl

inner_source : IsFound toml sidecar world (codes "b") (some a_base) found_b
unfolding IsFound find_source resolve_extend_source text_eq ends_with strip_suffix load_single
inner_source = (find_source_iff toml sidecar world (codes "b") (some a_base) found_b).0 refl

inner_beside : LandsBeside toml sidecar world (codes "b") found_b.loaded nothing_gathered b_lands
unfolding b_lands land_base text_eq ends_with strip_suffix load_single node_at get at put same_path
    remove_file
inner_beside =
    (land_base_iff toml sidecar world nothing_gathered (codes "b") found_b.loaded b_lands).0 refl

outer_on : LandsOn toml sidecar world found_a.loaded b_lands (loaded_of (run (codes "/a")))
unfolding run b_lands land_child load_package_source text_eq ends_with strip_suffix load_single
    node_at get at put same_path remove_file
outer_on =
    (land_child_iff toml sidecar world found_a.loaded b_lands (loaded_of (run (codes "/a")))).0 refl

a_derived : Loads toml sidecar world (codes "/a") none (loaded_of (run (codes "/a")))
unfolding run b_lands load_package_source text_eq ends_with strip_suffix load_single node_at get at
    put same_path remove_file
a_derived =
    over found_a (codes "b") [] b_lands outer_source refl
      (and_base found_b.loaded (alone found_b inner_source refl) inner_beside no_bases) outer_on

keys_fit : Fits toml sidecar world [] a_derived
unfolding Fits a_derived cycle_from push_key text_eq
keys_fit = ((omega arith, refl), ((omega arith, refl), tt))

load_package_source-Fits_example :
    load_package_source toml sidecar world (codes "/a") ≡ ok (loaded_of (run (codes "/a")))
load_package_source-Fits_example =
    load_package_source-Fits toml sidecar world (codes "/a") (loaded_of (run (codes "/a")))
      a_derived keys_fit
