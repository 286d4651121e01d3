-- ===== src/Layer/GraphLandings.antt =====
-- What a single step of a load does: a source is found, a base lands beside the others, and a package
-- lands on its bases.
use rototo.Base.{
  true, false, ◌&&◌, [], ◌++◌, Option, Result, ok, err, ◌>>=◌, >>=-eq-ok, >>-eq-ok, ok-injective,
  Bytes, ◌≡◌, ◌↔◌, refl, sym, ap,
}
use mathlib.Core.Path.{subst}
use rototo.Toml.{Toml}
use rototo.Layer.Errors.{LayerError}
use rototo.Layer.Landing.{Landing}
use rototo.Layer.Copy.{Sidecar, copy_package_layer}
use rototo.Layer.Enforce.{enforce_layer_governance}
use rototo.Layer.Trees.{tree_of}
use rototo.Layer.Sources.{
  LoadedPackageSource, ExtendSourceBase, ResolvedExtendSource, World, SingleError,
}
use rototo.Layer.Extends.{resolve_extend_source, package_source_key}
use rototo.Layer.Graph.{
  Gathered, Outcome, Found, layer_label, last_source, combined_layer_fingerprint, in_layer,
  of_single, single_source, gathered_with, projected, land_base, land_child, find_source,
}

module _ (T : Toml) (J : Sidecar) (world : World) where
  -- the source is resolved and loaded, and its key computed
  unfoldable pub IsFound : Bytes → Option ExtendSourceBase → Found → Type 0
  IsFound source base found =
      (resolved : ResolvedExtendSource) × (resolve_extend_source T source base ≡ ok resolved)
      × (world.load_single resolved.source ≡ ok found.loaded)
      × (package_source_key T world resolved.source found.loaded.staged ≡ ok found.key)
      × (found.inherited ≡ resolved.inherited_temporary_base)

  -- the package of a base lands beside those before it, under the label of its source
  unfoldable pub LandsBeside : Bytes → LoadedPackageSource → Gathered → Gathered → Type 0
  LandsBeside source parent g next =
      (landed : Landing) × (copy_package_layer T J parent.staged.tree false
          (layer_label parent source) true g.files g.provided
        ≡ ok landed)
      × (next ≡ record {
        files = landed.files;
        provided = landed.provided;
        layers = g.layers ++ parent.layers;
        immutable = g.immutable && parent.immutable;
      })

  -- the package passes the enforcement of the contract of its bases, and lands on them
  unfoldable pub LandsOn : LoadedPackageSource → Gathered → LoadedPackageSource → Type 0
  LandsOn loaded g out =
      (landed : Landing) × (enforce_layer_governance T loaded.staged.tree g.files ≡ ok tt)
      × (copy_package_layer T J loaded.staged.tree true (last_source loaded.layers) false g.files []
          ≡ ok landed)
      × (out ≡ record {
        staged = record {
          path = world.projection_path;
          tree = tree_of landed.files;
          is_temporary = true;
        };
        fingerprint = combined_layer_fingerprint (g.layers ++ loaded.layers);
        immutable = g.immutable && loaded.immutable;
        layers = g.layers ++ loaded.layers;
      })

  in_layer-eq-ok :
      {A : Type 0} (r : Result (LayerError T.Scalar) A) (a : A)
      → in_layer T J world r ≡ ok a
      → r ≡ ok a
  in_layer-eq-ok (ok b) a h = ap ok (ok-injective b a h)
  in_layer-eq-ok (err e) a h = absurd (cc)

  of_single-eq-ok :
      (r : Result SingleError LoadedPackageSource) (loaded : LoadedPackageSource)
      → of_single T J world r ≡ ok loaded
      → r ≡ ok loaded
  of_single-eq-ok (ok other) loaded done = ap ok (ok-injective other loaded done)
  of_single-eq-ok (err e) loaded done = absurd (cc)

  pub land_base_iff :
      (g : Gathered) (source : Bytes) (parent : LoadedPackageSource) (next : Gathered)
      → (land_base T J world g source parent ≡ ok next) ↔ LandsBeside source parent g next
  unfolding land_base LandsBeside
  land_base_iff g source parent next =
      let copied =
        copy_package_layer T J parent.staged.tree false (layer_label parent source) true g.files
          g.provided in
      (
        λ done.
            let (landed, is_copied, made) =
              >>=-eq-ok (in_layer T J world copied)
                (λ landed. ok (gathered_with T J world g parent landed)) done in
            (
              landed,
              in_layer-eq-ok copied landed is_copied,
              sym (ok-injective (gathered_with T J world g parent landed) next made),
            ),
        λ (landed, is_copied, made). rw (land_base, is_copied, made) refl,
      )

  pub land_child_iff :
      (loaded : LoadedPackageSource) (g : Gathered) (out : LoadedPackageSource)
      → (land_child T J world loaded g ≡ ok out) ↔ LandsOn loaded g out
  unfolding land_child LandsOn
  land_child_iff loaded g out =
      let enforced = enforce_layer_governance T loaded.staged.tree g.files in
      let copied =
        copy_package_layer T J loaded.staged.tree true (last_source loaded.layers) false g.files
          [] in
      let onto : Landing → Outcome T J world LoadedPackageSource =
        λ landed. ok (projected T J world loaded g (tree_of landed.files)) in
      (
        λ done.
            let (passes, lands) =
              >>-eq-ok (in_layer T J world enforced) (in_layer T J world copied >>= onto) done in
            let (landed, is_copied, made) = >>=-eq-ok (in_layer T J world copied) onto lands in
            (
              landed,
              in_layer-eq-ok enforced tt passes,
              in_layer-eq-ok copied landed is_copied,
              sym (ok-injective (projected T J world loaded g (tree_of landed.files)) out made),
            ),
        λ (landed, passes, is_copied, made). rw (land_child, passes, is_copied, made) refl,
      )

  pub find_source_iff :
      (source : Bytes) (base : Option ExtendSourceBase) (found : Found)
      → (find_source T J world source base ≡ ok found) ↔ IsFound source base found
  unfolding find_source IsFound
  find_source_iff source base found =
      let built : ResolvedExtendSource → LoadedPackageSource → Bytes → Found =
        λ resolved loaded key. record {
          loaded = loaded;
          inherited = resolved.inherited_temporary_base;
          key = key;
        } in
      let with_key : ResolvedExtendSource → LoadedPackageSource → Outcome T J world Found =
        λ resolved loaded. package_source_key T world resolved.source loaded.staged >>= λ key.
        ok (built resolved loaded key) in
      (
        λ done.
            let (resolved, is_resolved, loads) =
              >>=-eq-ok (resolve_extend_source T source base)
                (λ resolved. single_source T J world resolved.source >>= with_key resolved) done in
            let (loaded, is_loaded, keyed) =
              >>=-eq-ok (single_source T J world resolved.source) (with_key resolved) loads in
            let (key, is_key, made) =
              >>=-eq-ok (package_source_key T world resolved.source loaded.staged)
                (λ key. ok (built resolved loaded key)) keyed in
            let same = ok-injective (built resolved loaded key) found made in
            subst (λ f. IsFound source base f) same
              (
                resolved,
                is_resolved,
                of_single-eq-ok (world.load_single resolved.source) loaded is_loaded,
                is_key,
                refl,
              ),
        λ (resolved, is_resolved, is_loaded, is_key, inherits).
            rw (find_source, is_resolved, is_loaded, is_key, sym inherits) refl,
      )
