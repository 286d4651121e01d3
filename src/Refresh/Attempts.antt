-- ===== src/Refresh/Attempts.antt =====
-- An attempt of `refresh_once` of src/sdk/refresh.rs by what its probes and its load find.
use mathlib.Core.Path.{subst}
use rototo.Base.{
  ℕ, suc, ◌-◌, ◌^◌, ◌<◌, ◌≤◌, Bool, true, false, List, [], ◌∷◌, Option, none, some, ◌≡◌, ◌⊎◌, inl,
  inr, refl, sym, arith, Bytes, Result, ok, err, length, leb, Bool-cases,
}
use rototo.Refresh.State.{
  RefreshOutcome, unchanged, refreshed, pinned, SourceProbe, source_unchanged, source_changed,
  immutable_pinned, unknown, SourceLayer, Package, RefreshState, Attempt, probe_layers,
  probe_package_source_graph, probe_current, finish_load, after_probe, refresh_once_inner,
  saturating_suc, start_attempt, finish_attempt, refresh_once,
}

module _ (F I : Type 0) where
  abbrev pub Probe : Type 0
  Probe = Bytes → Option F → Result Bytes (SourceProbe F I)

  -- The probes of the layers in their order: the first that says more than that its layer is unchanged
  -- decides, and a pinned layer that is marked immutable counts as unchanged.
  pub data ProbesTo (probe : Probe)
      : List (SourceLayer F I) → Result Bytes (SourceProbe F I) → Type 0 where
    all_unchanged : ProbesTo probe [] (ok source_unchanged)
    same_layer :
        {layer : SourceLayer F I} {layers : List (SourceLayer F I)}
        {r : Result Bytes (SourceProbe F I)}
        → probe layer.source layer.fingerprint ≡ ok source_unchanged
        → ProbesTo probe layers r
        → ProbesTo probe (layer ∷ layers) r
    pinned_layer :
        {layer : SourceLayer F I} {layers : List (SourceLayer F I)}
        {r : Result Bytes (SourceProbe F I)} (f : F)
        → probe layer.source layer.fingerprint ≡ ok (immutable_pinned f)
        → layer.immutable ≡ true
        → ProbesTo probe layers r
        → ProbesTo probe (layer ∷ layers) r
    newly_pinned :
        {layer : SourceLayer F I} {layers : List (SourceLayer F I)} (f : F)
        → probe layer.source layer.fingerprint ≡ ok (immutable_pinned f)
        → layer.immutable ≡ false
        → ProbesTo probe (layer ∷ layers) (ok source_unchanged)
    changed_layer :
        {layer : SourceLayer F I} {layers : List (SourceLayer F I)} (f : Option F)
        → probe layer.source layer.fingerprint ≡ ok (source_changed f)
        → ProbesTo probe (layer ∷ layers) (ok (source_changed f))
    unknown_layer :
        {layer : SourceLayer F I} {layers : List (SourceLayer F I)}
        → probe layer.source layer.fingerprint ≡ ok unknown
        → ProbesTo probe (layer ∷ layers) (ok unknown)
    failed_layer :
        {layer : SourceLayer F I} {layers : List (SourceLayer F I)} (e : Bytes)
        → probe layer.source layer.fingerprint ≡ err e
        → ProbesTo probe (layer ∷ layers) (err e)

  -- what the probes of a package find: nothing is known of a fallback
  abbrev pub Finds : Probe → Bytes → Package F I → Result Bytes (SourceProbe F I) → Type 0
  Finds probe source p found =
      ((p.served_fallback ≡ true) × (found ≡ ok unknown))
      ⊎ ((p.served_fallback ≡ false)
          × (length p.source_layers ≤ 1)
          × (found ≡ probe source p.source_fingerprint))
      ⊎ ((p.served_fallback ≡ false)
          × (1 < length p.source_layers)
          × ProbesTo probe p.source_layers found)

  -- one failure more, up to the largest u64
  abbrev pub IsOneMore : ℕ → ℕ → Type 0
  IsOneMore n m = ((n < 2 ^ 64 - 1) × (m ≡ suc n)) ⊎ ((2 ^ 64 - 1 ≤ n) × (m ≡ n))

  abbrev pub Fails :
      Attempt F I
      → Bytes
      → RefreshState F I
      → Result Bytes RefreshOutcome
      → RefreshState F I
      → Type 0
  Fails attempt e before result after =
      (result ≡ err e)
      × (after.current ≡ before.current)
      × (failures : ℕ) × IsOneMore before.status.consecutive_failures failures
      × (after.status ≡ record before.status {
        last_attempt = some attempt.attempted_at;
        refreshing = false;
        consecutive_failures = failures;
        last_error = some e;
      })

  -- how an attempt ends with a load
  abbrev pub EndsLoad :
      Attempt F I
      → Result Bytes (Package F I)
      → RefreshState F I
      → Result Bytes RefreshOutcome
      → RefreshState F I
      → Type 0
  EndsLoad attempt (err e) before result after = Fails attempt e before result after
  EndsLoad attempt (ok next) before result after =
      (result ≡ ok refreshed)
      × (after.current ≡ next)
      × (after.status ≡ record {
        current_fingerprint = next.source_fingerprint;
        last_success = some next.loaded_at;
        last_attempt = some attempt.attempted_at;
        consecutive_failures = 0;
        last_error = none;
        refreshing = false;
        immutable = next.immutable_source;
        serving_fallback = false;
      })

  -- how an attempt ends, by what the probes found
  abbrev pub Ends :
      Attempt F I
      → Result Bytes (SourceProbe F I)
      → RefreshState F I
      → Result Bytes RefreshOutcome
      → RefreshState F I
      → Type 0
  Ends attempt (err e) before result after = Fails attempt e before result after
  Ends attempt (ok source_unchanged) before result after =
      (result ≡ ok unchanged)
      × (after.current ≡ before.current)
      × (after.status
          ≡ record before.status { last_attempt = some attempt.attempted_at; refreshing = false })
  Ends attempt (ok (immutable_pinned f)) before result after =
      (result ≡ ok pinned)
      × (after.current ≡ before.current)
      × (after.status ≡ record before.status {
        last_attempt = some attempt.attempted_at;
        refreshing = false;
        current_fingerprint = some f;
        immutable = true;
      })
  Ends attempt (ok (source_changed f)) before result after =
      EndsLoad attempt attempt.load before result after
  Ends attempt (ok unknown) before result after = EndsLoad attempt attempt.load before result after

  saturating_suc-IsOneMore : (n : ℕ) → IsOneMore n (saturating_suc F I n)
  saturating_suc-IsOneMore n = elim (Bool-cases (leb (2 ^ 64 - 1) n)) [
    | inl e ↦ inr (ground arith, ground arith)
    | inr e ↦ inl (ground arith, ground arith)
  ]

  probe_layers-ProbesTo :
      (probe : Probe) (layers : List (SourceLayer F I))
      → ProbesTo probe layers (probe_layers F I probe layers)
  unfolding probe_layers
  probe_layers-ProbesTo probe [] = all_unchanged
  probe_layers-ProbesTo probe (layer ∷ layers) =
      by (probe layer.source layer.fingerprint) layer.immutable refl refl
        (probe_layers-ProbesTo probe layers)
    where
      by :
          (found : Result Bytes (SourceProbe F I)) (marked : Bool)
          → probe layer.source layer.fingerprint ≡ found
          → layer.immutable ≡ marked
          → ProbesTo probe layers (probe_layers F I probe layers)
          → ProbesTo probe (layer ∷ layers) (probe_layers F I probe (layer ∷ layers))
      by (err e) marked is_found is_marked rest =
          rw (probe_layers, is_found) (failed_layer e is_found)
      by (ok source_unchanged) marked is_found is_marked rest =
          rw (probe_layers, is_found) (same_layer is_found rest)
      by (ok (immutable_pinned f)) true is_found is_marked rest =
          let same : probe_layers F I probe (layer ∷ layers) ≡ probe_layers F I probe layers =
            rw (probe_layers, is_found, is_marked) refl in
          subst (ProbesTo probe (layer ∷ layers)) (sym same)
            (pinned_layer f is_found is_marked rest)
      by (ok (immutable_pinned f)) false is_found is_marked rest =
          let same : probe_layers F I probe (layer ∷ layers) ≡ ok source_unchanged =
            rw (probe_layers, is_found, is_marked) refl in
          subst (ProbesTo probe (layer ∷ layers)) (sym same) (newly_pinned f is_found is_marked)
      by (ok (source_changed f)) marked is_found is_marked rest =
          rw (probe_layers, is_found) (changed_layer f is_found)
      by (ok unknown) marked is_found is_marked rest =
          rw (probe_layers, is_found) (unknown_layer is_found)

  probe_current-Finds :
      (source : Bytes) (attempt : Attempt F I) (p : Package F I)
      → Finds attempt.probe source p (probe_current F I source attempt p)
  unfolding probe_package_source_graph
  probe_current-Finds source attempt p = elim (Bool-cases p.served_fallback) [
    | inl e ↦ rw e (inl (refl, refl))
    | inr e ↦ elim (Bool-cases (leb (length p.source_layers) 1)) [
      | inl few ↦ rw (e, few) (inr (inl (refl, ground arith, refl)))
      | inr many ↦
          rw (e, many)
            (inr (inr (refl, ground arith, probe_layers-ProbesTo attempt.probe p.source_layers)))
    ]
  ]

  load-EndsLoad :
      (state : RefreshState F I) (attempt : Attempt F I) (loaded : Result Bytes (Package F I))
      → let (result, after) =
          finish_attempt F I attempt
            (finish_load F I attempt (start_attempt F I attempt state) loaded) in
        EndsLoad attempt loaded state result after
  load-EndsLoad state attempt (err e) = (
    refl,
    refl,
    saturating_suc F I state.status.consecutive_failures,
    saturating_suc-IsOneMore state.status.consecutive_failures,
    refl,
  )
  load-EndsLoad state attempt (ok next) = (refl, refl, refl)

  probe-Ends :
      (state : RefreshState F I) (attempt : Attempt F I) (found : Result Bytes (SourceProbe F I))
      → let (result, after) =
          finish_attempt F I attempt
            (after_probe F I attempt (start_attempt F I attempt state) found) in
        Ends attempt found state result after
  probe-Ends state attempt (err e) = (
    refl,
    refl,
    saturating_suc F I state.status.consecutive_failures,
    saturating_suc-IsOneMore state.status.consecutive_failures,
    refl,
  )
  probe-Ends state attempt (ok source_unchanged) = (refl, refl, refl)
  probe-Ends state attempt (ok (immutable_pinned f)) = (refl, refl, refl)
  probe-Ends state attempt (ok (source_changed f)) = load-EndsLoad state attempt attempt.load
  probe-Ends state attempt (ok unknown) = load-EndsLoad state attempt attempt.load

  -- One refresh, by what is found: nothing is known of a package that is the fallback; a package
  -- of at most one layer is probed as a whole, and else its layers one after the other until one
  -- decides. When the probe fails, or the source has changed or is unknown and the load fails, the
  -- result is that error, the package stays and the status changes in the time of the attempt, the
  -- error, and the failure count, which goes up by one to the largest u64 at most; an unchanged
  -- source changes the time of the attempt and no more; a pinned source also sets its fingerprint
  -- and the immutable flag; and a changed or unknown source whose load succeeds replaces the
  -- package, and the status is that of the loaded package with no failures and no error.
  pub refresh_once-Ends :
      (source : Bytes) (attempt : Attempt F I) (state : RefreshState F I)
      → (found : Result Bytes (SourceProbe F I)) × Finds attempt.probe source state.current found
        × Ends attempt found state
            (refresh_once F I source attempt state).0
            (refresh_once F I source attempt state).1
  unfolding refresh_once refresh_once_inner
  refresh_once-Ends source attempt state = (
    probe_current F I source attempt state.current,
    probe_current-Finds source attempt state.current,
    probe-Ends state attempt (probe_current F I source attempt state.current),
  )
