-- ===== src/Layer/GraphLoads.antt =====
-- What a load stands for, without the stack, the cycle test and the fuel: a relation between a
-- source and the package that it loads as.
use rototo.Base.{
  List, [], ◌∷◌, Option, none, some, Result, ok, err, ◌>>=◌, >>=-eq-ok, ok-injective, ℕ, zero, suc,
  leb, length, Bytes, text_eq, ◌&&◌, ◌||◌, ◌≡◌, refl, sym, ◌∙◌, inl, inr, Bool-cases, Option-cases,
  Result-cases,
}
use mathlib.Core.Path.{subst}
use rototo.Toml.{Toml}
use rototo.Layer.Copy.{Sidecar}
use rototo.Layer.Sources.{
  LoadedPackageSource, ExtendSourceBase, World, out_of_fuel, depth_exceeded, cycle_detected,
}
use rototo.Layer.Extends.{read_package_extends, extend_source_base_path}
use rototo.Layer.Graph.{
  max_package_extends_depth, push_key, cycle_from, Gathered, nothing_gathered, Outcome, Load,
  land_base, load_bases, land_child, base_of, project_package_source_graph, Found, find_source,
  load_package_source_graph, load_package_source,
}
use rototo.Layer.GraphLandings.{
  IsFound, LandsBeside, LandsOn, land_base_iff, land_child_iff, find_source_iff,
}

module _ {E A B : Type 0} where
  after_base :
      (first : Result E A) (next : A → Result E A × B) (after : B) {out : A}
      → (elim first as (λ _. Result E A × B) [ err e ↦ (err e, after) | ok a ↦ next a ]).0 ≡ ok out
      → (a : A) × (first ≡ ok a) × ((next a).0 ≡ ok out)
  after_base (err e) next after done = cc
  after_base (ok a) next after done = (a, refl, done)

module _ {E A : Type 0} where
  ok_from : (r s : Result E A) {a : A} → r ≡ s → r ≡ ok a → s ≡ ok a
  ok_from r s same done = sym same ∙ done

  failed_ok : {C : Type 0} (r : Result E A) (e : E) {a : A} → r ≡ err e → r ≡ ok a → C
  failed_ok (ok b) e failed done = absurd (cc)
  failed_ok (err f) e failed done = absurd (cc)

module _ (T : Toml) (J : Sidecar) (world : World) where
  mutual
    pub data Loads : Bytes → Option ExtendSourceBase → LoadedPackageSource → Type 0 where
      alone :
          {source : Bytes} {base : Option ExtendSourceBase} (found : Found)
          → IsFound T J world source base found
          → read_package_extends T found.loaded.staged.tree ≡ ok []
          → Loads source base found.loaded
      over :
          {source : Bytes} {base : Option ExtendSourceBase} {out : LoadedPackageSource}
          (found : Found) (first : Bytes) (sources : List Bytes) (g : Gathered)
          → IsFound T J world source base found
          → read_package_extends T found.loaded.staged.tree ≡ ok (first ∷ sources)
          → LoadsBases
              (record {
                path = extend_source_base_path T found.loaded;
                temporary =
                    found.inherited
                    || (found.loaded.staged.is_temporary
                        && text_eq
                            (extend_source_base_path T found.loaded)
                            found.loaded.staged.path);
              })
              (first ∷ sources)
              nothing_gathered
              g
          → LandsOn T J world found.loaded g out
          → Loads source base out

    -- the packages of the sources, landed in their order
    pub data LoadsBases : ExtendSourceBase → List Bytes → Gathered → Gathered → Type 0 where
      no_bases : {base : ExtendSourceBase} {g : Gathered} → LoadsBases base [] g g
      and_base :
          {base : ExtendSourceBase} {source : Bytes} {sources : List Bytes} {g next out : Gathered}
          (parent : LoadedPackageSource)
          → Loads source (some base) parent
          → LandsBeside T J world source parent g next
          → LoadsBases base sources next out
          → LoadsBases base (source ∷ sources) g out

  unfoldable pub Refines : Load T J world → Type 0
  Refines load =
      (source : Bytes) (base : Option ExtendSourceBase) (stack : List Bytes)
      (out : LoadedPackageSource)
      → (load source base stack).0 ≡ ok out
      → Loads source base out

  load_bases-LoadsBases :
      (load : Load T J world)
      → Refines load
      → (base : ExtendSourceBase) (sources : List Bytes) (g : Gathered) (stack : List Bytes)
        (out : Gathered)
      → (load_bases T J world load base sources g stack).0 ≡ ok out
      → LoadsBases base sources g out
  unfolding load_bases Refines
  load_bases-LoadsBases load refines base [] g stack out done =
      subst (λ x. LoadsBases base [] g x) (ok-injective g out done) no_bases
  load_bases-LoadsBases load refines base (source ∷ sources) g stack out done =
      let after = (load source (some base) stack).1 in
      let (next, landed, rest) =
        after_base ((load source (some base) stack).0 >>= land_base T J world g source)
          (λ next. load_bases T J world load base sources next after) after done in
      let (parent, loaded, lands) =
        >>=-eq-ok (load source (some base) stack).0 (land_base T J world g source) landed in
      and_base parent (refines source (some base) stack parent loaded)
        ((land_base_iff T J world g source parent next).0 lands)
        (load_bases-LoadsBases load refines base sources next after out rest)

  project-Loads :
      (load : Load T J world)
      → Refines load
      → (source : Bytes) (base : Option ExtendSourceBase) (found : Found) (stack : List Bytes)
        (out : LoadedPackageSource)
      → IsFound T J world source base found
      → (project_package_source_graph T J world load found.loaded found.inherited stack).0 ≡ ok out
      → Loads source base out
  unfolding project_package_source_graph
  project-Loads load refines source base found stack out is_found done =
      elim (Result-cases (read_package_extends T found.loaded.staged.tree)) [
        | inr (e, failed) ↦ failed_ok run.0 e (rw (project_package_source_graph, failed) refl) done
        | inl ([], none_given) ↦
            subst (λ x. Loads source base x)
              (ok-injective found.loaded out (
                ok_from run.0 (ok found.loaded) (rw (project_package_source_graph, none_given) refl)
                  done))
              (alone found is_found none_given)
        | inl (first ∷ sources, given) ↦
            let (g, gathered, landed) =
              >>=-eq-ok (bases first sources).0 (land_child T J world found.loaded) (
                ok_from run.0 ((bases first sources).0 >>= land_child T J world found.loaded)
                  (rw (project_package_source_graph, given) refl) done) in
            over found first sources g is_found given
              (load_bases-LoadsBases load refines (base_of T J world found.loaded found.inherited)
                (first ∷ sources) nothing_gathered stack g gathered)
              ((land_child_iff T J world found.loaded g out).0 landed)
      ]
    where
      run : Outcome T J world LoadedPackageSource × List Bytes
      run = project_package_source_graph T J world load found.loaded found.inherited stack

      bases : Bytes → List Bytes → Outcome T J world Gathered × List Bytes
      bases first sources =
          load_bases T J world load (base_of T J world found.loaded found.inherited)
            (first ∷ sources) nothing_gathered stack

  pub load-Loads : (fuel : ℕ) → Refines (load_package_source_graph T J world fuel)
  unfolding load_package_source_graph Refines
  load-Loads zero source base stack out done = failed_ok (err out_of_fuel) out_of_fuel refl done
  load-Loads (suc fuel) source base stack out done =
      elim (Bool-cases (leb max_package_extends_depth (length stack))) [
        | inl deep ↦ failed_ok run.0 depth_exceeded (rw (load_package_source_graph, deep) refl) done
        | inr shallow ↦ elim (Result-cases (find_source T J world source base)) [
          | inr (e, failed) ↦
              failed_ok run.0 e
                (rw (load_package_source_graph, shallow)
                  (rw (load_package_source_graph, failed) refl))
                done
          | inl (found, is_found) ↦ elim (Option-cases (cycle_from found.key stack)) [
            | inr (cycle, cyclic) ↦
                failed_ok run.0 (cycle_detected (push_key cycle found.key))
                  (rw (load_package_source_graph, shallow)
                    (rw (load_package_source_graph, is_found)
                      (rw (load_package_source_graph, cyclic) refl)))
                  done
            | inl acyclic ↦
                project-Loads (load_package_source_graph T J world fuel) (load-Loads fuel) source
                  base found (push_key stack found.key) out
                  ((find_source_iff T J world source base found).0 is_found)
                  (ok_from run.0 (below found).0
                    (rw (load_package_source_graph, shallow)
                      (rw (load_package_source_graph, is_found)
                        (rw (load_package_source_graph, acyclic) refl)))
                    done)
          ]
        ]
      ]
    where
      run : Outcome T J world LoadedPackageSource × List Bytes
      run = load_package_source_graph T J world (suc fuel) source base stack

      below : Found → Outcome T J world LoadedPackageSource × List Bytes
      below found =
          project_package_source_graph T J world (load_package_source_graph T J world fuel)
            found.loaded found.inherited (push_key stack found.key)

  -- A load of a package that succeeds is one that the relation Loads allows, which knows no stack,
  -- no cycle test and no depth: the source resolves, the single package loads and its key is
  -- computed; and if its manifest extends sources, their packages are loaded the same way, from a
  -- base that is temporary as the package is, and are copied in the order of the manifest under
  -- the labels of their sources, with the layers and the immutable marks gathered; the package
  -- passes the enforcement against what they left, is copied on it, and the result has its files,
  -- its layers behind theirs, and the fingerprint that combines them.
  pub load_package_source-Loads :
      (source : Bytes) (out : LoadedPackageSource)
      → load_package_source T J world source ≡ ok out
      → Loads source none out
  unfolding load_package_source Refines
  load_package_source-Loads source out done =
      load-Loads (suc max_package_extends_depth) source none [] out done
