-- ===== src/Layer/GraphComplete.antt =====
-- Every load that the relation Loads allows is run, if its keys fit on the stack and none comes twice.
use rototo.Base.{
  false, List, [], ◌∷◌, Option, none, some, ok, ℕ, zero, suc, ◌+◌, ◌<◌, leb, length, Bytes, ◌≡◌,
  refl, ap, ◌∙◌, arith,
}
use rototo.Toml.{Toml}
use rototo.Layer.Copy.{Sidecar}
use rototo.Layer.Sources.{LoadedPackageSource, ExtendSourceBase, World}
use rototo.Layer.Extends.{read_package_extends}
use rototo.Layer.Graph.{
  max_package_extends_depth, push_key, pop_key, cycle_from, Gathered, nothing_gathered, Outcome,
  Load, land_base, load_bases, land_child, base_of, project_package_source_graph, Found,
  find_source, load_package_source_graph, load_package_source,
}
use rototo.Layer.GraphStack.{pop_key-push_key, length-push_key}
use rototo.Layer.GraphLandings.{land_base_iff, land_child_iff, find_source_iff}
use rototo.Layer.GraphLoads.{Loads, LoadsBases, alone, over, no_bases, and_base}

module _ (T : Toml) (J : Sidecar) (world : World) where
  abbrev FitsKey : List Bytes → Bytes → Type 0
  FitsKey stack key = (length stack < max_package_extends_depth) × (cycle_from key stack ≡ none)

  unfoldable mutual
    -- above a stack, no key of the load is on its way and the way has at most 32 keys
    pub Fits :
        (stack : List Bytes) {source : Bytes} {base : Option ExtendSourceBase}
        {out : LoadedPackageSource}
        → Loads T J world source base out
        → Type 0
    Fits stack (alone found _ _) = FitsKey stack found.key
    Fits stack (over found _ _ _ _ _ bases _) =
        FitsKey stack found.key × FitsBases (push_key stack found.key) bases

    pub FitsBases :
        (stack : List Bytes) {base : ExtendSourceBase} {sources : List Bytes} {g out : Gathered}
        → LoadsBases T J world base sources g out
        → Type 0
    FitsBases stack no_bases = Unit
    FitsBases stack (and_base parent loads _ bases) = Fits stack loads × FitsBases stack bases

  load_into : ℕ → Found → List Bytes → Outcome T J world LoadedPackageSource × List Bytes
  load_into fuel found stack =
      project_package_source_graph T J world (load_package_source_graph T J world fuel) found.loaded
        found.inherited (push_key stack found.key)

  load-enters :
      (fuel : ℕ) (source : Bytes) (base : Option ExtendSourceBase) (stack : List Bytes)
      (found : Found)
      → find_source T J world source base ≡ ok found
      → FitsKey stack found.key
      → load_package_source_graph T J world (suc fuel) source base stack
        ≡ ((load_into fuel found stack).0, pop_key (load_into fuel found stack).1)
  unfolding load_package_source_graph load_into
  load-enters fuel source base stack found is_found (short, new) =
      let shallow : leb max_package_extends_depth (length stack) ≡ false = ground arith in
      rw (load_package_source_graph, shallow)
        (rw (load_package_source_graph, is_found) (rw (load_package_source_graph, new) refl))

  load-ends :
      (fuel : ℕ) (source : Bytes) (base : Option ExtendSourceBase) (stack : List Bytes)
      (found : Found) (out : LoadedPackageSource)
      → find_source T J world source base ≡ ok found
      → FitsKey stack found.key
      → load_into fuel found stack ≡ (ok out, push_key stack found.key)
      → load_package_source_graph T J world (suc fuel) source base stack ≡ (ok out, stack)
  load-ends fuel source base stack found out is_found fits ends =
      load-enters fuel source base stack found is_found fits
      ∙ ap (λ r. (r.0, pop_key r.1)) ends
      ∙ ap (λ s. (ok out, s)) (pop_key-push_key stack found.key)

  load_bases-next :
      (load : Load T J world) (base : ExtendSourceBase) (source : Bytes) (sources : List Bytes)
      (g next : Gathered) (stack : List Bytes) (parent : LoadedPackageSource)
      → load source (some base) stack ≡ (ok parent, stack)
      → land_base T J world g source parent ≡ ok next
      → load_bases T J world load base (source ∷ sources) g stack
        ≡ load_bases T J world load base sources next stack
  unfolding load_bases
  load_bases-next load base source sources g next stack parent loads landed =
      rw (load_bases, loads)
        (rw landed (ap (λ r. load_bases T J world load base sources next r.1) loads))

  project-over :
      (load : Load T J world) (found : Found) (first : Bytes) (sources : List Bytes) (g : Gathered)
      (stack : List Bytes) (out : LoadedPackageSource)
      → read_package_extends T found.loaded.staged.tree ≡ ok (first ∷ sources)
      → load_bases T J world load
          (base_of T J world found.loaded found.inherited)
          (first ∷ sources)
          nothing_gathered
          stack
        ≡ (ok g, stack)
      → land_child T J world found.loaded g ≡ ok out
      → project_package_source_graph T J world load found.loaded found.inherited stack
        ≡ (ok out, stack)
  unfolding project_package_source_graph
  project-over load found first sources g stack out given bases landed =
      rw (project_package_source_graph, given) (rw bases (rw landed refl))

  mutual
    unfolding Fits load_into load_bases project_package_source_graph

    load-Fits :
        (stack : List Bytes) {source : Bytes} {base : Option ExtendSourceBase}
        {out : LoadedPackageSource} (loads : Loads T J world source base out)
        → Fits stack loads
        → (fuel : ℕ) → max_package_extends_depth < length stack + fuel
        → load_package_source_graph T J world fuel source base stack ≡ (ok out, stack)
    load-Fits stack (alone found _ _) (short, _) zero enough = absurd (omega arith)
    load-Fits stack (over found _ _ _ _ _ _ _) ((short, _), _) zero enough = absurd (omega arith)
    load-Fits stack (alone found is_found none_given) fits (suc fuel) enough =
        load-ends fuel _ _ stack found found.loaded
          ((find_source_iff T J world _ _ found).1 is_found) fits
          (rw (project_package_source_graph, none_given) refl)
    load-Fits stack (over found first sources g is_found given bases landed) (fits, fit) (suc fuel)
          enough =
        load-ends fuel _ _ stack found _ ((find_source_iff T J world _ _ found).1 is_found) fits (
          project-over (load_package_source_graph T J world fuel) found first sources g
            (push_key stack found.key) _ given
            (load_bases-Fits (push_key stack found.key) bases fit fuel
              (omega (arith, length-push_key stack found.key)))
            ((land_child_iff T J world found.loaded g _).1 landed))

    load_bases-Fits :
        (stack : List Bytes) {base : ExtendSourceBase} {sources : List Bytes} {g out : Gathered}
        (bases : LoadsBases T J world base sources g out)
        → FitsBases stack bases
        → (fuel : ℕ) → max_package_extends_depth < length stack + fuel
        → load_bases T J world (load_package_source_graph T J world fuel) base sources g stack
          ≡ (ok out, stack)
    load_bases-Fits stack no_bases fit fuel enough = refl
    load_bases-Fits stack (and_base parent loads landed bases) (fits, fit) fuel enough =
        load_bases-next (load_package_source_graph T J world fuel) _ _ _ _ _ stack parent
          (load-Fits stack loads fits fuel enough) ((land_base_iff T J world _ _ parent _).1 landed)
        ∙ load_bases-Fits stack bases fit fuel enough

  -- Whenever the relation Loads allows a source to load as a package, and no key comes twice on a
  -- way from it through the extended packages and no way has more than 32 keys, the load of the
  -- source succeeds with that package.
  pub load_package_source-Fits :
      (source : Bytes) (out : LoadedPackageSource) (loads : Loads T J world source none out)
      → Fits [] loads
      → load_package_source T J world source ≡ ok out
  unfolding load_package_source
  load_package_source-Fits source out loads fits =
      ap (λ r. r.0) (load-Fits [] loads fits (suc max_package_extends_depth) (omega arith))
