-- ===== src/Layer/GraphStack.antt =====
-- The stack of keys behind a load of a package and its bases, and the fuel of that load.
use rototo.Base.{
  Bool, List, [], ◌∷◌, Option, some, ◌>>=◌, ℕ, zero, suc, leb, length, Bytes, ◌≡◌, refl, ap, ◌∙◌,
  inl, inr, Bool-cases, Option-cases, Result-cases,
}
use rototo.Toml.{Toml}
use rototo.Layer.Copy.{Sidecar}
use rototo.Layer.Sources.{LoadedPackageSource, ExtendSourceBase, World}
use rototo.Layer.Extends.{read_package_extends}
use rototo.Layer.Graph.{
  max_package_extends_depth, push_key, pop_key, cycle_from, Gathered, nothing_gathered, Load,
  land_base, load_bases, base_of, project_package_source_graph, find_source,
  load_package_source_graph,
}

pub pop_key-push_key : (stack : List Bytes) (key : Bytes) → pop_key (push_key stack key) ≡ stack
unfolding pop_key push_key
pop_key-push_key [] key = refl
pop_key-push_key (k ∷ []) key = refl
pop_key-push_key (k ∷ next ∷ stack) key =
    ap (λ rest. k ∷ rest) (pop_key-push_key (next ∷ stack) key)

pub length-push_key :
    (stack : List Bytes) (key : Bytes) → length (push_key stack key) ≡ suc (length stack)
unfolding push_key
length-push_key [] key = refl
length-push_key (k ∷ stack) key = ap suc (length-push_key stack key)

module _ (T : Toml) (J : Sidecar) (world : World) where
  unfoldable pub Restores : Load T J world → Type 0
  Restores load =
      (source : Bytes) (base : Option ExtendSourceBase) (stack : List Bytes)
      → (load source base stack).1 ≡ stack

  pub load_bases-stack :
      (load : Load T J world)
      → Restores load
      → (base : ExtendSourceBase) (sources : List Bytes) (g : Gathered) (stack : List Bytes)
      → (load_bases T J world load base sources g stack).1 ≡ stack
  unfolding load_bases Restores
  load_bases-stack load restores base [] g stack = refl
  load_bases-stack load restores base (source ∷ sources) g stack =
      elim (Result-cases ((load source (some base) stack).0 >>= land_base T J world g source)) [
        | inr (e, failed) ↦ rw (load_bases, failed) (restores source (some base) stack)
        | inl (next, landed) ↦
            rw (load_bases, landed)
              (load_bases-stack load restores base sources next (load source (some base) stack).1
                ∙ restores source (some base) stack)
      ]

  project-stack :
      (load : Load T J world)
      → Restores load
      → (loaded : LoadedPackageSource) (inherited : Bool) (stack : List Bytes)
      → (project_package_source_graph T J world load loaded inherited stack).1 ≡ stack
  unfolding project_package_source_graph
  project-stack load restores loaded inherited stack =
      elim (Result-cases (read_package_extends T loaded.staged.tree)) [
        | inr (e, failed) ↦ rw (project_package_source_graph, failed) refl
        | inl ([], none_given) ↦ rw (project_package_source_graph, none_given) refl
        | inl (source ∷ sources, given) ↦
            rw (project_package_source_graph, given)
              (load_bases-stack load restores (base_of T J world loaded inherited)
                (source ∷ sources) nothing_gathered stack)
      ]

  -- The load of a package leaves the stack of keys as it was, behind a success and behind each
  -- error.
  pub load-stack :
      (fuel : ℕ) (source : Bytes) (base : Option ExtendSourceBase) (stack : List Bytes)
      → (load_package_source_graph T J world fuel source base stack).1 ≡ stack
  unfolding load_package_source_graph Restores
  load-stack zero source base stack = refl
  load-stack (suc fuel) source base stack =
      elim (Bool-cases (leb max_package_extends_depth (length stack))) [
        | inl deep ↦ rw (load_package_source_graph, deep) refl
        | inr shallow ↦
            rw (load_package_source_graph, shallow)
              (elim (Result-cases (find_source T J world source base)) [
                | inr (e, failed) ↦ rw (load_package_source_graph, failed) refl
                | inl (found, is_found) ↦
                    rw (load_package_source_graph, is_found)
                      (elim (Option-cases (cycle_from found.key stack)) [
                        | inr (cycle, cyclic) ↦ rw (load_package_source_graph, cyclic) refl
                        | inl acyclic ↦
                            rw (load_package_source_graph, acyclic)
                              (ap pop_key (
                                  project-stack (load_package_source_graph T J world fuel)
                                    (load-stack fuel) found.loaded found.inherited
                                    (push_key stack found.key))
                                ∙ pop_key-push_key stack found.key)
                      ])
              ])
      ]
