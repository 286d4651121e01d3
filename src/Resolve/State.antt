-- ===== src/Resolve/State.antt =====
-- src/resolve.rs: `ResolutionState` and the functions that resolve with it. A run answers what the code
-- asks; the state is kept beside an error. The recursion over referenced variables has fuel.
use rototo.Base.{
  ℕ, zero, suc, Bool, true, false, ◌||◌, not, List, [], ◌∷◌, Option, none, some, Bytes, Result, ok,
  err, Map, lookup, keys, member, remove, length, is_empty, ok_or, if◌then◌else◌,
}
use rototo.Resolve.Engine.{Engine}
use rototo.Resolve.Runtime.{
  RototoError, variable_not_found, reference_cycle, RuntimeResolution, rules_resolution,
  query_resolution, allocation_resolution, RuntimeTracePolicy, VariableResolution,
  VariableResolutionTrace, VariableTraceCapture,
}
use rototo.Resolve.Ask.{Ask, give, fail, ask, ◌>>=◌, give_result, for_each}
use rototo.Resolve.Evaluate.{Session, evaluate_bool_traced}
use rototo.Resolve.Trace.{resolve_rules_trace, resolve_allocation_trace}
use rototo.Resolve.Query.{resolve_query_trace}

-- how a run ends without a result: in an error of the source, or at the end of its fuel
pub data Stop : Type 0 where
  failed : RototoError → Stop
  out_of_fuel : Stop

module _ (E : Engine) where
  open E use {Json}

  pub record ResolutionState : Type 0 where
    pub variable_cache : Map Json
    pub resolving : List Bytes

  abbrev pub new : ResolutionState
  new = record { variable_cache = []; resolving = [] }

  abbrev pub Run : Type 0 → Type 0
  Run A = ResolutionState → Result Stop A × ResolutionState

  abbrev pub Resolver : Type 0
  Resolver = Bytes → Run Json

  abbrev pub continue :
      {A : Type 0}
      → Result Stop Json × ResolutionState
      → (Json → Run A)
      → Result Stop A × ResolutionState
  continue (ok value, state) next = next value state
  continue (err e, state) next = (err e, state)

  unfoldable pub run : {A : Type 0} → Resolver → Ask Json A → Run A
  run resolver (give a) state = (ok a, state)
  run resolver (fail e) state = (err (failed e), state)
  run resolver (ask id next) state =
      continue (resolver id state) (λ value. run resolver (next value))

  abbrev pub resolve_method :
      Session E → Bytes → RuntimeResolution E → Ask Json (VariableResolutionTrace E)
  resolve_method s id (rules_resolution default rules) = resolve_rules_trace E s id default rules
  resolve_method s id (query_resolution query) = resolve_query_trace E s id query
  resolve_method s id (allocation_resolution allocation) =
      resolve_allocation_trace E s id allocation

  unfoldable pub resolve_variable_trace : Session E → Bytes → Ask Json (VariableResolutionTrace E)
  resolve_variable_trace s id = do
    variable ← give_result (ok_or (lookup s.runtime.variables id) (variable_not_found id))
    trace ← resolve_method s id variable
    give (record trace { provenance = lookup s.runtime.resolve_provenance id })

  abbrev pub resolve_variable : Session E → Bytes → Ask Json (VariableResolution E)
  resolve_variable s id = resolve_variable_trace s id >>= λ trace. give trace.resolution

  -- after the call: the id leaves `resolving`, and a value goes into the cache
  abbrev pub leave :
      Bytes
      → Result Stop (VariableResolution E) × ResolutionState
      → Result Stop Json × ResolutionState
  leave id (err e, state) = (err e, record state { resolving = remove id state.resolving })
  leave id (ok resolution, state) = (
    ok resolution.value,
    record {
      variable_cache = (id, resolution.value) ∷ state.variable_cache;
      resolving = remove id state.resolving;
    },
  )

  -- The two tests: the value that the cache has, and whether the id is being resolved.
  unfoldable pub resolve_step : Resolver → Session E → Bytes → Option Json → Bool → Run Json
  resolve_step resolver s id (some value) busy state = (ok value, state)
  resolve_step resolver s id none true state = (err (failed (reference_cycle id)), state)
  resolve_step resolver s id none false state =
      leave id
        (run resolver (resolve_variable s id) (record state { resolving = id ∷ state.resolving }))

  unfoldable pub resolve_variable_value : ℕ → Session E → Resolver
  resolve_variable_value zero s id state = (err out_of_fuel, state)
  resolve_variable_value (suc n) s id state =
      resolve_step (resolve_variable_value n s) s id (lookup state.variable_cache id)
        (member state.resolving id) state

  -- A chain of references has no variable twice.
  abbrev pub fuel : Session E → ℕ
  fuel s = suc (length (keys s.runtime.variables))

  abbrev pub run_session : {A : Type 0} → Session E → Ask Json A → Run A
  run_session s code state = run (resolve_variable_value (fuel s) s) code state

  unfoldable pub resolve_variable_unchecked : Session E → Bytes → Result Stop (VariableResolution E)
  resolve_variable_unchecked s id = (run_session s (resolve_variable s id) new).0

  unfoldable pub trace_variable_unchecked :
      Session E → Bytes → Result Stop (VariableResolutionTrace E)
  trace_variable_unchecked s id = (run_session s (resolve_variable_trace s id) new).0

  unfoldable pub resolve_variables_unchecked : Session E → Result Stop (List (VariableResolution E))
  resolve_variables_unchecked s =
      (run_session s (for_each (resolve_variable s) (keys s.runtime.variables)) new).0

  unfoldable pub trace_variable_resolutions_unchecked :
      Session E → Result Stop (List (VariableResolutionTrace E))
  trace_variable_resolutions_unchecked s =
      (run_session s (for_each (resolve_variable_trace s) (keys s.runtime.variables)) new).0

  pub record VariableTraceOutcome : Type 0 where
    pub id : Bytes
    pub trace : Option (VariableResolutionTrace E)
    pub error : Option Stop

  abbrev pub outcome_of : Bytes → Result Stop (VariableResolutionTrace E) → VariableTraceOutcome
  outcome_of id (ok trace) = record { id = id; trace = some trace; error = none }
  outcome_of id (err e) = record { id = id; trace = none; error = some e }

  unfoldable pub trace_outcomes :
      Session E → List Bytes → ResolutionState → List (VariableTraceOutcome)
  trace_outcomes s [] state = []
  trace_outcomes s (id ∷ ids) state =
      let (outcome, state') = run_session s (resolve_variable_trace s id) state in
      outcome_of id outcome ∷ trace_outcomes s ids state'

  unfoldable pub trace_variable_resolution_outcomes_unchecked :
      Session E → List (VariableTraceOutcome)
  trace_variable_resolution_outcomes_unchecked s = trace_outcomes s (keys s.runtime.variables) new

  -- the loop over the policies: the indices of those that match
  unfoldable pub match_policies :
      Session E → Bytes → ℕ → List (RuntimeTracePolicy E) → Ask Json (List ℕ)
  match_policies s id index [] = give []
  match_policies s id index (policy ∷ policies) = do
    matched ← evaluate_bool_traced E s policy.condition id
    rest ← match_policies s id (suc index) policies
    give (if matched then index ∷ rest else rest)

  abbrev pub evaluate_trace_policies : Session E → Bytes → Ask Json (List ℕ)
  evaluate_trace_policies s id = match_policies s id 0 s.runtime.trace_policies

  abbrev pub capture :
      Bool
      → VariableResolutionTrace E
      → List ℕ
      → VariableResolution E × Option (VariableTraceCapture E)
  capture app_requested trace policies = (
    trace.resolution,
    if app_requested || not (is_empty policies)
        then some (record { trace = trace; policies = policies })
        else none,
  )

  abbrev pub traced :
      Session E → Bytes → Bool → Ask Json (VariableResolution E × Option (VariableTraceCapture E))
  traced s id app_requested = do
    trace ← resolve_variable_trace s id
    policies ← evaluate_trace_policies s id
    give (capture app_requested trace policies)

  unfoldable pub resolve_variable_traced_unchecked :
      Session E
      → Bytes
      → Bool
      → Result Stop (VariableResolution E × Option (VariableTraceCapture E))
  resolve_variable_traced_unchecked s id app_requested =
      (run_session s (traced s id app_requested) new).0
