-- ===== src/Refresh/Tests.antt =====
-- Runs of src/sdk/refresh.rs, and its theorems at concrete attempts.
use rototo.Base.{
  ℕ, ◌≤◌, ◌<◌, ◌*◌, ◌⊎◌, true, false, [], none, some, ◌≡◌, refl, arith, Bytes, codes, Result, ok,
  err,
}
use rototo.Refresh.Backoff.{failure_backoff, failure_backoff-doubles, IsSmaller}
use rototo.Refresh.State.{
  SourceProbe, source_unchanged, source_changed, Package, RefreshState, Attempt, probe_layers,
  probe_package_source_graph, refresh_once_inner, refresh_once, start_state, load_with_options,
}
use rototo.Refresh.Attempts.{Finds, Ends, refresh_once-Ends}
use rototo.Refresh.Steps.{IsReachable, started, attempted_once, IsCurrent, IsReachable-IsCurrent}

-- fingerprints are numbers and identities texts
abbrev version : ℕ → Package ℕ Bytes
version n = record {
  identity = codes "package";
  source_fingerprint = some n;
  immutable_source = false;
  source_layers = [];
  served_fallback = false;
  loaded_at = n;
}

abbrev attempt : ℕ → SourceProbe ℕ Bytes → Result Bytes (Package ℕ Bytes) → Attempt ℕ Bytes
attempt at found load = record {
  attempted_at = at;
  completed_at = at;
  probe = λ source previous. ok found;
  load = load;
}

abbrev source : Bytes
source = codes "packages/app"

abbrev broken : Attempt ℕ Bytes
broken = attempt 20 (source_changed none) (err (codes "does not lint"))

abbrev quiet : Attempt ℕ Bytes
quiet = attempt 30 source_unchanged (err [])

abbrev fixed : Attempt ℕ Bytes
fixed = attempt 40 (source_changed none) (ok (version 40))

-- the start on the fallback
abbrev degraded : RefreshState ℕ Bytes
degraded =
    start_state ℕ Bytes (record (version 10) { served_fallback = true }) (some (codes "no network"))
      9

abbrev first : RefreshState ℕ Bytes
first = start_state ℕ Bytes (version 10) none 9

after : Attempt ℕ Bytes → RefreshState ℕ Bytes → RefreshState ℕ Bytes
unfolding refresh_once refresh_once_inner probe_package_source_graph probe_layers
after a state = (refresh_once ℕ Bytes source a state).1

-- A failure is still counted after an attempt that finds the source unchanged.
kept_failures : (after quiet (after broken first)).status.consecutive_failures ≡ 1
unfolding after
kept_failures = refl

recovered : (after fixed degraded).status.serving_fallback ≡ false
unfolding after
recovered = refl

third_delay : failure_backoff 3 5 300 ≡ 20
unfolding failure_backoff
third_delay = refl

late_delay : failure_backoff 30 5 300 ≡ 300
unfolding failure_backoff
late_delay = refl

failure_backoff-doubles_example :
    (failure_backoff 0 5 300 ≡ 0)
    × IsSmaller 5 300 (failure_backoff 1 5 300)
    × (((3 < 20) × IsSmaller (2 * failure_backoff 4 5 300) 300 (failure_backoff 5 5 300))
        ⊎ ((20 ≤ 3) × (failure_backoff 5 5 300 ≡ failure_backoff 4 5 300)))
failure_backoff-doubles_example = failure_backoff-doubles 5 300 3 (omega arith)

refresh_once-Ends_example :
    (found : Result Bytes (SourceProbe ℕ Bytes)) × Finds ℕ Bytes broken.probe source first.current
      found
    × Ends ℕ Bytes broken found first
        (refresh_once ℕ Bytes source broken first).0
        (refresh_once ℕ Bytes source broken first).1
refresh_once-Ends_example = refresh_once-Ends ℕ Bytes source broken first

degraded-IsReachable : IsReachable ℕ Bytes source degraded
unfolding load_with_options
degraded-IsReachable = started (err (codes "no network")) (some (ok (version 10))) 9 refl

IsReachable-IsCurrent_example : IsCurrent ℕ Bytes (refresh_once ℕ Bytes source fixed degraded).1
IsReachable-IsCurrent_example =
    IsReachable-IsCurrent ℕ Bytes source (refresh_once ℕ Bytes source fixed degraded).1
      (attempted_once degraded-IsReachable fixed refl)
