-- ===== src/Layer/GraphFuel.antt =====
-- The fuel of the load of a package: a load that starts from an empty stack never uses it up.
use rototo.Base.{
  Bool, true, false, List, [], ◌∷◌, Option, none, some, Result, ok, err, ◌>>=◌, ℕ, zero, suc, ◌+◌,
  ◌<◌, ◌≤◌, leb, length, Bytes, ◌≡◌, ◌≢◌, refl, arith, inl, inr, Bool-cases, Option-cases,
  Result-cases,
}
use mathlib.Core.Path.{subst}
use rototo.Toml.{Toml}
use rototo.Layer.Copy.{Sidecar}
use rototo.Layer.Errors.{LayerError}
use rototo.Layer.Sources.{LoadedPackageSource, ExtendSourceBase, World, SingleError, out_of_fuel}
use rototo.Layer.Extends.{read_package_extends, resolve_extend_source, package_source_key}
use rototo.Layer.Landing.{Landing}
use rototo.Layer.Copy.{copy_package_layer}
use rototo.Layer.Trees.{tree_of}
use rototo.Layer.Enforce.{enforce_layer_governance}
use rototo.Layer.Graph.{
  gathered_with, projected, layer_label, last_source, max_package_extends_depth, push_key,
  cycle_from, Gathered, nothing_gathered, Outcome, Load, in_layer, land_base, load_bases,
  land_child, base_of, project_package_source_graph, find_source, single_source, of_single,
  load_package_source_graph, load_package_source,
}
use rototo.Layer.GraphStack.{Restores, load-stack, length-push_key}
use rototo.Layer.Settled.{
  settled, settled-bind, read_package_extends-settles, resolve_extend_source-settles,
  package_source_key-settles,
}

module _ (T : Toml) (J : Sidecar) (world : World) where
  of_single-settles :
      (r : Result SingleError LoadedPackageSource) → settled (of_single T J world r) ≡ true
  of_single-settles (ok loaded) = refl
  of_single-settles (err e) = refl

  in_layer-settles :
      {A : Type 0} (r : Result (LayerError T.Scalar) A) → settled (in_layer T J world r) ≡ true
  in_layer-settles (ok a) = refl
  in_layer-settles (err e) = refl

  find_source-settles :
      (source : Bytes) (base : Option ExtendSourceBase)
      → settled (find_source T J world source base) ≡ true
  unfolding find_source
  find_source-settles source base =
      settled-bind (resolve_extend_source T source base) _
        (resolve_extend_source-settles T source base)
        (λ resolved.
          settled-bind (single_source T J world resolved.source) _
            (of_single-settles (world.load_single resolved.source))
            (λ loaded.
              settled-bind (package_source_key T world resolved.source loaded.staged) _
                (package_source_key-settles T world resolved.source loaded.staged) (λ key. refl)))

  land_base-settles :
      (g : Gathered) (source : Bytes) (parent : LoadedPackageSource)
      → settled (land_base T J world g source parent) ≡ true
  unfolding land_base
  land_base-settles g source parent =
      settled-bind (in_layer T J world landing)
        (λ landed. ok (gathered_with T J world g parent landed)) (in_layer-settles landing)
        (λ landed. refl)
    where
      landing : Result (LayerError T.Scalar) Landing
      landing =
          copy_package_layer T J parent.staged.tree false (layer_label parent source) true g.files
            g.provided

  land_child-settles :
      (loaded : LoadedPackageSource) (g : Gathered) → settled (land_child T J world loaded g) ≡ true
  unfolding land_child
  land_child-settles loaded g =
      settled-bind (in_layer T J world enforced) (λ _. onto) (in_layer-settles enforced)
        (λ _.
          settled-bind (in_layer T J world landing)
            (λ landed. ok (projected T J world loaded g (tree_of landed.files)))
            (in_layer-settles landing) (λ landed. refl))
    where
      enforced : Result (LayerError T.Scalar) (Unit {0})
      enforced = enforce_layer_governance T loaded.staged.tree g.files

      landing : Result (LayerError T.Scalar) Landing
      landing =
          copy_package_layer T J loaded.staged.tree true (last_source loaded.layers) false g.files
            []

      onto : Outcome T J world LoadedPackageSource
      onto = in_layer T J world landing >>= λ landed.
          ok (projected T J world loaded g (tree_of landed.files))

  unfoldable pub SettlesAt : Load T J world → List Bytes → Type 0
  SettlesAt load stack =
      (source : Bytes) (base : Option ExtendSourceBase) → settled (load source base stack).0 ≡ true

  load_bases-settles :
      (load : Load T J world) (stack : List Bytes)
      → Restores T J world load
      → SettlesAt load stack
      → (base : ExtendSourceBase) (sources : List Bytes) (g : Gathered)
      → settled (load_bases T J world load base sources g stack).0 ≡ true
  unfolding load_bases Restores SettlesAt
  load_bases-settles load stack restores settles base [] g = refl
  load_bases-settles load stack restores settles base (source ∷ sources) g =
      elim (Result-cases ((load source (some base) stack).0 >>= land_base T J world g source)) [
        | inr (e, failed) ↦
            rw (load_bases, failed)
              (subst (λ r. settled r ≡ true) failed
                (settled-bind (load source (some base) stack).0 (land_base T J world g source)
                  (settles source (some base)) (land_base-settles g source)))
        | inl (next, landed) ↦
            rw (load_bases, landed, restores source (some base) stack)
              (load_bases-settles load stack restores settles base sources next)
      ]

  project-settles :
      (load : Load T J world) (stack : List Bytes)
      → Restores T J world load
      → SettlesAt load stack
      → (loaded : LoadedPackageSource) (inherited : Bool)
      → settled (project_package_source_graph T J world load loaded inherited stack).0 ≡ true
  unfolding project_package_source_graph
  project-settles load stack restores settles loaded inherited =
      elim (Result-cases (read_package_extends T loaded.staged.tree)) [
        | inr (e, failed) ↦
            rw (project_package_source_graph, failed)
              (subst (λ r. settled r ≡ true) failed
                (read_package_extends-settles T loaded.staged.tree))
        | inl ([], none_given) ↦ rw (project_package_source_graph, none_given) refl
        | inl (source ∷ sources, given) ↦
            rw (project_package_source_graph, given)
              (settled-bind
                (load_bases T J world load (base_of T J world loaded inherited) (source ∷ sources)
                  nothing_gathered stack).0
                (land_child T J world loaded)
                (load_bases-settles load stack restores settles (base_of T J world loaded inherited)
                  (source ∷ sources) nothing_gathered)
                (land_child-settles loaded))
      ]

  pub load-settles :
      (fuel : ℕ) (stack : List Bytes)
      → length stack ≤ max_package_extends_depth
      → max_package_extends_depth < length stack + fuel
      → SettlesAt (load_package_source_graph T J world fuel) stack
  unfolding load_package_source_graph SettlesAt Restores
  load-settles zero stack fits enough source base = ground arith
  load-settles (suc fuel) stack fits enough source base =
      elim (Bool-cases (leb max_package_extends_depth (length stack))) [
        | inl deep ↦ rw (load_package_source_graph, deep) refl
        | inr shallow ↦
            rw (load_package_source_graph, shallow)
              (elim (Result-cases (find_source T J world source base)) [
                | inr (e, failed) ↦
                    rw (load_package_source_graph, failed)
                      (subst (λ r. settled r ≡ true) failed (find_source-settles source base))
                | inl (found, is_found) ↦
                    rw (load_package_source_graph, is_found)
                      (elim (Option-cases (cycle_from found.key stack)) [
                        | inr (cycle, cyclic) ↦ rw (load_package_source_graph, cyclic) refl
                        | inl acyclic ↦
                            rw (load_package_source_graph, acyclic)
                              (project-settles (load_package_source_graph T J world fuel)
                                (push_key stack found.key) (load-stack T J world fuel)
                                (load-settles fuel (push_key stack found.key)
                                  (ground (arith, length-push_key stack found.key))
                                  (ground (arith, length-push_key stack found.key)))
                                found.loaded found.inherited)
                      ])
              ])
      ]

  settled-not_out_of_fuel :
      {A : Type 0} (r : Outcome T J world A) → settled r ≡ true → r ≢ err out_of_fuel
  settled-not_out_of_fuel r h exhausted = cc

  -- A load of a package never runs out of fuel: the test of the depth, or that of the cycle, ends
  -- each chain of extended packages before that.
  pub load_package_source-ends :
      (source : Bytes) → load_package_source T J world source ≢ err out_of_fuel
  unfolding load_package_source SettlesAt
  load_package_source-ends source =
      settled-not_out_of_fuel (load_package_source T J world source)
        (load-settles (suc max_package_extends_depth) [] (omega arith) (omega arith) source none)
