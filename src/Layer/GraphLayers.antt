-- ===== src/Layer/GraphLayers.antt =====
-- The layers of a loaded package, and what its fingerprint and its mark say of them.
use rototo.Base.{
  Bool, true, ◌&&◌, List, [], ◌∷◌, ◌++◌, Option, some, ok, Bytes, ◌≡◌, refl, sym, arith,
}
use mathlib.Core.Path.{subst}
use rototo.Toml.{Toml}
use rototo.Layer.Copy.{Sidecar}
use rototo.Layer.Sources.{SourceLayer, LoadedPackageSource, ExtendSourceBase, World}
use rototo.Layer.Graph.{Gathered, nothing_gathered, Found, combined_layer_fingerprint}
use rototo.Layer.GraphLandings.{IsFound, LandsBeside, LandsOn}
use rototo.Layer.GraphLoads.{Loads, LoadsBases, alone, over, no_bases, and_base}

unfoldable pub all_immutable : List SourceLayer → Bool
all_immutable [] = true
all_immutable (layer ∷ layers) = layer.immutable && all_immutable layers

all_immutable-append :
    (xs ys : List SourceLayer) → all_immutable (xs ++ ys) ≡ (all_immutable xs && all_immutable ys)
unfolding all_immutable
all_immutable-append [] ys = refl
all_immutable-append (x ∷ xs) ys = ground (arith, all_immutable-append xs ys)

-- a package that is marked immutable if all its layers are, with their fingerprint
unfoldable pub AgreesWithLayers : LoadedPackageSource → Type 0
AgreesWithLayers loaded =
    (loaded.immutable ≡ all_immutable loaded.layers)
    × (loaded.fingerprint ≡ combined_layer_fingerprint loaded.layers)

unfoldable pub GatheredAgrees : Gathered → Type 0
GatheredAgrees g = g.immutable ≡ all_immutable g.layers

module _ (T : Toml) (J : Sidecar) (world : World)
    (singles : (source : Bytes) (loaded : LoadedPackageSource)
      → world.load_single source ≡ ok loaded
      → AgreesWithLayers loaded) where
  found-AgreesWithLayers :
      (source : Bytes) (base : Option ExtendSourceBase) (found : Found)
      → IsFound T J world source base found
      → AgreesWithLayers found.loaded
  unfolding IsFound
  found-AgreesWithLayers source base found (resolved, _, is_loaded, _, _) =
      singles resolved.source found.loaded is_loaded

  land_base-GatheredAgrees :
      (g : Gathered) (source : Bytes) (parent : LoadedPackageSource) (next : Gathered)
      → GatheredAgrees g
      → AgreesWithLayers parent
      → LandsBeside T J world source parent g next
      → GatheredAgrees next
  unfolding LandsBeside GatheredAgrees AgreesWithLayers
  land_base-GatheredAgrees g source parent next agrees (marks, prints) (landed, _, made) =
      subst (λ x. x.immutable ≡ all_immutable x.layers) (sym made)
        (rw (agrees, marks) (sym (all_immutable-append g.layers parent.layers)))

  land_child-AgreesWithLayers :
      (loaded : LoadedPackageSource) (g : Gathered) (out : LoadedPackageSource)
      → GatheredAgrees g
      → AgreesWithLayers loaded
      → LandsOn T J world loaded g out
      → AgreesWithLayers out
  unfolding LandsOn GatheredAgrees AgreesWithLayers
  land_child-AgreesWithLayers loaded g out agrees (marks, prints) (landed, _, _, made) =
      subst AgreesWithLayers (sym made)
        (rw (agrees, marks) (sym (all_immutable-append g.layers loaded.layers)), refl)

  mutual
    unfolding AgreesWithLayers GatheredAgrees all_immutable

    pub Loads-AgreesWithLayers :
        (source : Bytes) (base : Option ExtendSourceBase) (out : LoadedPackageSource)
        → Loads T J world source base out
        → AgreesWithLayers out
    Loads-AgreesWithLayers source base _ (alone found is_found none_given) =
        found-AgreesWithLayers source base found is_found
    Loads-AgreesWithLayers source base out
          (over found first sources g is_found given bases landed) =
        land_child-AgreesWithLayers found.loaded g out
          (LoadsBases-GatheredAgrees _ _ nothing_gathered g bases refl)
          (found-AgreesWithLayers source base found is_found) landed

    LoadsBases-GatheredAgrees :
        (base : ExtendSourceBase) (sources : List Bytes) (g out : Gathered)
        → LoadsBases T J world base sources g out
        → GatheredAgrees g
        → GatheredAgrees out
    LoadsBases-GatheredAgrees base _ g _ no_bases agrees = agrees
    LoadsBases-GatheredAgrees base _ g out (and_base parent loads landed bases) agrees =
        LoadsBases-GatheredAgrees base _ _ out bases (
          land_base-GatheredAgrees g _ parent _ agrees
            (Loads-AgreesWithLayers _ (some base) parent loads) landed)
