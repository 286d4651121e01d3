-- ===== src/Refresh/State.antt =====
-- src/sdk/refresh.rs: `RefreshState`, `refresh_once`, `refresh_once_inner`, `probe_package_source_graph` and
-- the start in `load_with_options`. What an attempt finds outside (times, probes, a load) is an argument.
use rototo.Base.{
  ℕ, suc, ◌-◌, ◌^◌, Bool, true, false, not, ◌&&◌, List, [], ◌∷◌, Option, none, some, Bytes, Result,
  ok, err, leb, length, if◌then◌else◌,
}

pub data RefreshOutcome : Type 0 where
  unchanged refreshed pinned : RefreshOutcome

pub data RefreshEventType : Type 0 where
  loaded_event fallback_loaded refresh_started unchanged_event refreshed_event failed_event
        immutable_event shutdown_event :
      RefreshEventType

-- the error of a start: that of the primary, or `fallback_load_error` of both
pub data LoadError : Type 0 where
  primary_failed : Bytes → LoadError
  both_failed : Bytes → Bytes → LoadError

-- over the types of fingerprints and of identities of packages
module _ (F I : Type 0) where
  pub data SourceProbe : Type 0 where
    source_unchanged : SourceProbe
    source_changed : Option F → SourceProbe
    immutable_pinned : F → SourceProbe
    unknown : SourceProbe

  pub record SourceLayer : Type 0 where
    pub source : Bytes
    pub fingerprint : Option F
    pub immutable : Bool

  -- the parts of a package that its refresh reads
  pub record Package : Type 0 where
    pub identity : I
    pub source_fingerprint : Option F
    pub immutable_source : Bool
    pub source_layers : List SourceLayer
    pub served_fallback : Bool
    pub loaded_at : ℕ

  pub record RefreshStatus : Type 0 where
    pub current_fingerprint : Option F
    pub last_success : Option ℕ
    pub last_attempt : Option ℕ
    pub consecutive_failures : ℕ
    pub last_error : Option Bytes
    pub refreshing : Bool
    pub immutable : Bool
    pub serving_fallback : Bool

  pub record RefreshEvent : Type 0 where
    pub event_type : RefreshEventType
    pub previous : Option I
    pub current : Option I
    pub attempted_at : ℕ
    pub completed_at : ℕ
    pub duration : ℕ
    pub outcome : Option RefreshOutcome
    pub consecutive_failures : ℕ
    pub error : Option Bytes

  -- the shared state, with the events that the channel was sent, the last one first
  pub record RefreshState : Type 0 where
    pub current : Package
    pub status : RefreshStatus
    pub events : List RefreshEvent

  -- what one attempt finds: the time of its start and of its end, the probes and the load
  pub record Attempt : Type 0 where
    pub attempted_at : ℕ
    pub completed_at : ℕ
    pub probe : Bytes → Option F → Result Bytes SourceProbe
    pub load : Result Bytes Package

  abbrev pub emit_event : RefreshState → RefreshEvent → RefreshState
  emit_event state event = record state { events = event ∷ state.events }

  -- `duration_since(..).unwrap_or_default()` is 0 when the clock went back.
  abbrev pub new_event :
      RefreshEventType
      → Option I
      → Option I
      → ℕ
      → ℕ
      → Option RefreshOutcome
      → ℕ
      → Option Bytes
      → RefreshEvent
  new_event event_type previous current attempted_at completed_at outcome failures error = record {
    event_type = event_type;
    previous = previous;
    current = current;
    attempted_at = attempted_at;
    completed_at = completed_at;
    duration = completed_at - attempted_at;
    outcome = outcome;
    consecutive_failures = failures;
    error = error;
  }

  -- The loop over the layers: the first that is not unchanged decides.
  unfoldable pub probe_layers :
      (Bytes → Option F → Result Bytes SourceProbe) → List SourceLayer → Result Bytes SourceProbe
  probe_layers probe [] = ok source_unchanged
  probe_layers probe (layer ∷ layers) = elim (probe layer.source layer.fingerprint) [
    | err e ↦ err e
    | ok found ↦ elim found [
      | source_unchanged ↦ probe_layers probe layers
      | immutable_pinned f ↦ elim layer.immutable [
        | true ↦ probe_layers probe layers
        | false ↦ ok source_unchanged
      ]
      | source_changed f ↦ ok (source_changed f)
      | unknown ↦ ok unknown
    ]
  ]

  unfoldable pub probe_package_source_graph :
      (Bytes → Option F → Result Bytes SourceProbe)
      → Bytes
      → Option F
      → List SourceLayer
      → Result Bytes SourceProbe
  probe_package_source_graph probe source previous layers =
      if leb (length layers) 1 then probe source previous else probe_layers probe layers

  abbrev pub probe_current : Bytes → Attempt → Package → Result Bytes SourceProbe
  probe_current source attempt current =
      if current.served_fallback
      then ok unknown
      else probe_package_source_graph attempt.probe source current.source_fingerprint
          current.source_layers

  abbrev pub Refreshed : Type 0
  Refreshed = Result Bytes RefreshOutcome × RefreshState

  abbrev pub finish_unchanged : Attempt → RefreshState → Refreshed
  finish_unchanged attempt state = (
    ok unchanged,
    emit_event state (
        new_event unchanged_event none (some state.current.identity) attempt.attempted_at
          attempt.completed_at (some unchanged) 0 none),
  )

  abbrev pub finish_pinned : Attempt → RefreshState → F → Refreshed
  finish_pinned attempt state fingerprint = (
    ok pinned,
    emit_event
        (record state {
          status = record state.status { current_fingerprint = some fingerprint; immutable = true };
        })
        (new_event immutable_event none (some state.current.identity) attempt.attempted_at
          attempt.completed_at (some pinned) 0 none),
  )

  -- `load_snapshot_with_options(..).await?` and the swap of the package
  abbrev pub finish_load : Attempt → RefreshState → Result Bytes Package → Refreshed
  finish_load attempt state (err e) = (err e, state)
  finish_load attempt state (ok next) = (
    ok refreshed,
    emit_event
        (record {
          current = next;
          status = record state.status {
            current_fingerprint = next.source_fingerprint;
            last_success = some next.loaded_at;
            consecutive_failures = 0;
            last_error = none;
            immutable = next.immutable_source;
            serving_fallback = false;
          };
          events = state.events;
        })
        (new_event refreshed_event (some state.current.identity) (some next.identity)
          attempt.attempted_at next.loaded_at (some refreshed) 0 none),
  )

  abbrev pub after_probe : Attempt → RefreshState → Result Bytes SourceProbe → Refreshed
  after_probe attempt state (err e) = (err e, state)
  after_probe attempt state (ok source_unchanged) = finish_unchanged attempt state
  after_probe attempt state (ok (immutable_pinned f)) = finish_pinned attempt state f
  after_probe attempt state (ok (source_changed f)) = finish_load attempt state attempt.load
  after_probe attempt state (ok unknown) = finish_load attempt state attempt.load

  unfoldable pub refresh_once_inner : Bytes → Attempt → RefreshState → Refreshed
  refresh_once_inner source attempt state =
      after_probe attempt state (probe_current source attempt state.current)

  -- `saturating_add(1)` of a `u64`
  abbrev pub saturating_suc : ℕ → ℕ
  saturating_suc n = if leb (2 ^ 64 - 1) n then n else suc n

  abbrev pub start_attempt : Attempt → RefreshState → RefreshState
  start_attempt attempt state = record state {
    status = record state.status { last_attempt = some attempt.attempted_at; refreshing = true };
  }

  abbrev pub finish_attempt : Attempt → Refreshed → Refreshed
  finish_attempt attempt (ok outcome, state) =
      (ok outcome, record state { status = record state.status { refreshing = false } })
  finish_attempt attempt (err e, state) =
      let failures = saturating_suc state.status.consecutive_failures in
      (
        err e,
        emit_event
            (record state {
              status = record state.status {
                refreshing = false;
                consecutive_failures = failures;
                last_error = some e;
              };
            })
            (new_event failed_event none (some state.current.identity) attempt.attempted_at
              attempt.completed_at none failures (some e)),
      )

  unfoldable pub refresh_once : Bytes → Attempt → RefreshState → Refreshed
  refresh_once source attempt state =
      finish_attempt attempt (refresh_once_inner source attempt (start_attempt attempt state))

  -- the state that `load_with_options` starts with, once the primary or the fallback is loaded
  abbrev pub start_state : Package → Option Bytes → ℕ → RefreshState
  start_state first primary_error attempted_at =
      let serving_fallback = first.served_fallback in
      emit_event
        (record {
          current = first;
          status = record {
            current_fingerprint = first.source_fingerprint;
            last_success = some first.loaded_at;
            last_attempt = none;
            consecutive_failures = 0;
            last_error = primary_error;
            refreshing = false;
            immutable = first.immutable_source && not serving_fallback;
            serving_fallback = serving_fallback;
          };
          events = [];
        })
        (new_event (if serving_fallback then fallback_loaded else loaded_event) none
          (some first.identity) attempted_at first.loaded_at none 0 primary_error)

  abbrev pub fall_back : Bytes → Option (Result Bytes Package) → ℕ → Result LoadError RefreshState
  fall_back primary_error none attempted_at = err (primary_failed primary_error)
  fall_back primary_error (some (err e)) attempted_at = err (both_failed primary_error e)
  fall_back primary_error (some (ok first)) attempted_at =
      ok (start_state (record first { served_fallback = true }) (some primary_error) attempted_at)

  -- `load_with_options`: the load of the primary, and that of the fallback when one is set
  unfoldable pub load_with_options :
      Result Bytes Package → Option (Result Bytes Package) → ℕ → Result LoadError RefreshState
  load_with_options (ok first) fallback attempted_at = ok (start_state first none attempted_at)
  load_with_options (err e) fallback attempted_at = fall_back e fallback attempted_at
