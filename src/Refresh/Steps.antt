-- ===== src/Refresh/Steps.antt =====
-- `refresh_once` of src/sdk/refresh.rs as steps of the state.
use mathlib.Core.Path.{subst}
use rototo.Base.{ℕ, true, false, Option, none, some, ◌≡◌, refl, sym, arith, Bytes, Result, ok, err}
use rototo.Refresh.State.{
  RefreshOutcome, unchanged, refreshed, pinned, SourceProbe, source_unchanged, source_changed,
  immutable_pinned, unknown, Package, RefreshStatus, RefreshState, Attempt, probe_current,
  finish_load, after_probe, refresh_once_inner, saturating_suc, start_attempt, finish_attempt,
  refresh_once, start_state, load_with_options,
}

module _ (F I : Type 0) where
  -- the status after an attempt that changes nothing else
  abbrev pub attempted : RefreshStatus F I → Attempt F I → RefreshStatus F I
  attempted status attempt = record status {
    last_attempt = some attempt.attempted_at;
    refreshing = false;
  }

  -- What an attempt makes of the package and the status, for each result.
  abbrev pub IsResult :
      RefreshState F I → Attempt F I → Result Bytes RefreshOutcome → RefreshState F I → Type 0
  IsResult state attempt (err e) after =
      (after.current ≡ state.current)
      × (after.status ≡ record (attempted state.status attempt) {
        consecutive_failures = saturating_suc F I state.status.consecutive_failures;
        last_error = some e;
      })
  IsResult state attempt (ok unchanged) after =
      (after.current ≡ state.current) × (after.status ≡ attempted state.status attempt)
  IsResult state attempt (ok pinned) after =
      (after.current ≡ state.current)
      × (f : F) × (after.status ≡ record (attempted state.status attempt) {
        current_fingerprint = some f;
        immutable = true;
      })
  IsResult state attempt (ok refreshed) after =
      (next : Package F I) × (attempt.load ≡ ok next)
      × (after.current ≡ next)
      × (after.status ≡ record {
        current_fingerprint = next.source_fingerprint;
        last_success = some next.loaded_at;
        last_attempt = some attempt.attempted_at;
        consecutive_failures = 0;
        last_error = none;
        refreshing = false;
        immutable = next.immutable_source;
        serving_fallback = false;
      })

  load-IsResult :
      (state : RefreshState F I) (attempt : Attempt F I) (loaded : Result Bytes (Package F I))
      → attempt.load ≡ loaded
      → let (result, after) =
          finish_attempt F I attempt
            (finish_load F I attempt (start_attempt F I attempt state) loaded) in
        IsResult state attempt result after
  load-IsResult state attempt (err e) h = (refl, refl)
  load-IsResult state attempt (ok next) h = (next, h, refl, refl)

  probe-IsResult :
      (state : RefreshState F I) (attempt : Attempt F I) (probe : Result Bytes (SourceProbe F I))
      → let (result, after) =
          finish_attempt F I attempt
            (after_probe F I attempt (start_attempt F I attempt state) probe) in
        IsResult state attempt result after
  probe-IsResult state attempt (err e) = (refl, refl)
  probe-IsResult state attempt (ok source_unchanged) = (refl, refl)
  probe-IsResult state attempt (ok (immutable_pinned f)) = (refl, f, refl)
  probe-IsResult state attempt (ok (source_changed f)) =
      load-IsResult state attempt attempt.load refl
  probe-IsResult state attempt (ok unknown) = load-IsResult state attempt attempt.load refl

  -- one refresh, by its result
  pub refresh_once-IsResult :
      (source : Bytes) (attempt : Attempt F I) (state : RefreshState F I)
      → IsResult state attempt
          (refresh_once F I source attempt state).0
          (refresh_once F I source attempt state).1
  unfolding refresh_once refresh_once_inner
  refresh_once-IsResult source attempt state =
      probe-IsResult state attempt
        (probe_current F I source attempt (start_attempt F I attempt state).current)

  -- A load for a refresh or from the primary is not one from the fallback.
  abbrev pub IsPrimary : Result Bytes (Package F I) → Type 0
  IsPrimary (err e) = Unit
  IsPrimary (ok p) = p.served_fallback ≡ false

  -- The states that a start and refreshes lead to.
  pub data IsReachable (source : Bytes) : RefreshState F I → Type 0 where
    started :
        (primary : Result Bytes (Package F I))
        → (fallback : Option (Result Bytes (Package F I))) → (at : ℕ) → {state : RefreshState F I}
        → load_with_options F I primary fallback at ≡ ok state
        → IsReachable source state
    attempted_once :
        {state : RefreshState F I}
        → IsReachable source state
        → (attempt : Attempt F I) → IsPrimary attempt.load
        → IsReachable source (refresh_once F I source attempt state).1

  -- The status tells of the package that is served.
  abbrev pub IsCurrent : RefreshState F I → Type 0
  IsCurrent state =
      (state.status.serving_fallback ≡ state.current.served_fallback)
      × (state.status.last_success ≡ some state.current.loaded_at)
      × (state.status.refreshing ≡ false)

  result-IsCurrent :
      (state after : RefreshState F I) (attempt : Attempt F I) (r : Result Bytes RefreshOutcome)
      → IsCurrent state
      → IsPrimary attempt.load
      → IsResult state attempt r after
      → IsCurrent after
  result-IsCurrent state after attempt (err e) (a, b, c) p (h, g) = rw (h, g) (a, b, refl)
  result-IsCurrent state after attempt (ok unchanged) (a, b, c) p (h, g) = rw (h, g) (a, b, refl)
  result-IsCurrent state after attempt (ok pinned) (a, b, c) p (h, f, g) = rw (h, g) (a, b, refl)
  result-IsCurrent state after attempt (ok refreshed) i p (next, l, h, g) =
      let primary : next.served_fallback ≡ false = subst IsPrimary l p in
      rw (h, g) (sym primary, refl, refl)

  start-IsCurrent :
      (primary : Result Bytes (Package F I)) (fallback : Option (Result Bytes (Package F I)))
      (at : ℕ) (state : RefreshState F I)
      → load_with_options F I primary fallback at ≡ ok state
      → IsCurrent state
  unfolding load_with_options
  start-IsCurrent (ok first) fallback at state h =
      let same : start_state F I first none at ≡ state = ground arith in
      subst IsCurrent same (refl, refl, refl)
  start-IsCurrent (err e) none at state h = absurd (cc)
  start-IsCurrent (err e) (some (err f)) at state h = absurd (cc)
  start-IsCurrent (err e) (some (ok first)) at state h =
      let degraded : Package F I = record first { served_fallback = true } in
      let same : start_state F I degraded (some e) at ≡ state = ground arith in
      subst IsCurrent same (refl, refl, refl)

  -- In every state that a start and any refreshes lead to, where no refresh loads a package that
  -- is marked as the fallback, the status says that the fallback is served exactly when the
  -- package is the fallback, its last success is the time at which the package was loaded, and no
  -- refresh is under way.
  pub IsReachable-IsCurrent :
      (source : Bytes) (state : RefreshState F I) → IsReachable source state → IsCurrent state
  IsReachable-IsCurrent source state (started primary fallback at h) =
      start-IsCurrent primary fallback at state h
  IsReachable-IsCurrent source state (attempted_once {state = before} r attempt p) =
      let step = refresh_once F I source attempt before in
      result-IsCurrent before step.1 attempt step.0 (IsReachable-IsCurrent source before r) p
        (refresh_once-IsResult source attempt before)
