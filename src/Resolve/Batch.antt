-- ===== src/Resolve/Batch.antt =====
-- Single, traced and batch resolution of src/resolve.rs.
use rototo.Base.{List, [], ◌∷◌, some, ◌≡◌, ◌↔◌, refl, arith, Bytes, Result, ok, err, keys}
use rototo.Resolve.Engine.{Engine}
use rototo.Resolve.Runtime.{VariableResolution, VariableResolutionTrace}
use rototo.Resolve.Ask.{for_each}
use rototo.Resolve.Evaluate.{Session}
use rototo.Resolve.State.{
  Stop, ResolutionState, new, run_session, resolve_variable, resolve_variable_trace,
  resolve_variable_unchecked, trace_variable_unchecked, resolve_variables_unchecked,
  trace_variable_resolutions_unchecked, VariableTraceOutcome, outcome_of, trace_outcomes,
  trace_variable_resolution_outcomes_unchecked,
}
use rototo.Resolve.Answers.{Pointwise, for_each-Pointwise, Pointwise-for_each}
use rototo.Resolve.Memo.{Answers}
use rototo.Resolve.Complete.{IsSettled, run_session_iff, run_session-IsSettled}

module _ (E : Engine) (s : Session E) where
  Pointwise-map :
      {A B : Type 0} {R S : A → B → Type 0}
      → ((x : A) (y : B) → R x y → S x y)
      → (xs : List A) (ys : List B) → Pointwise R xs ys
      → Pointwise S xs ys
  Pointwise-map f [] [] h = tt
  Pointwise-map f (x ∷ xs) (y ∷ ys) (r, h) = (f x y r, Pointwise-map f xs ys h)
  Pointwise-map f [] (y ∷ ys) h = absurd h
  Pointwise-map f (x ∷ xs) [] h = absurd h

  pub settled : IsSettled E s (new E)
  settled = (tt, refl)

  -- A variable resolves to a result exactly when the plain evaluation, which has no cache and no
  -- test for cycles and evaluates a referenced variable again at each reference, gives that result
  -- with some fuel.
  pub resolve_variable_unchecked_iff :
      (id : Bytes) (resolution : VariableResolution E)
      → (resolve_variable_unchecked E s id ≡ ok resolution)
        ↔ Answers E s (resolve_variable E s id) resolution
  unfolding resolve_variable_unchecked
  resolve_variable_unchecked_iff id resolution =
      run_session_iff E s (resolve_variable E s id) resolution (new E) settled

  pub trace_variable_unchecked_iff :
      (id : Bytes) (trace : VariableResolutionTrace E)
      → (trace_variable_unchecked E s id ≡ ok trace)
        ↔ Answers E s (resolve_variable_trace E s id) trace
  unfolding trace_variable_unchecked
  trace_variable_unchecked_iff id trace =
      run_session_iff E s (resolve_variable_trace E s id) trace (new E) settled

  -- A batch, which shares one cache, gives a list of resolutions exactly when each variable alone,
  -- with a cache of its own, resolves to the resolution at its place.
  pub resolve_variables_unchecked_iff :
      (resolutions : List (VariableResolution E))
      → (resolve_variables_unchecked E s ≡ ok resolutions)
        ↔ Pointwise
            (λ id resolution. resolve_variable_unchecked E s id ≡ ok resolution)
            (keys s.runtime.variables)
            resolutions
  resolve_variables_unchecked_iff resolutions =
      let ids = keys s.runtime.variables in
      let whole : (resolve_variables_unchecked E s ≡ ok resolutions)
          ↔ Answers E s (for_each (resolve_variable E s) ids) resolutions =
        unfold resolve_variables_unchecked in
        run_session_iff E s (for_each (resolve_variable E s) ids) resolutions (new E) settled in
      (
        λ h.
            Pointwise-map (λ id r. (resolve_variable_unchecked_iff id r).1) ids resolutions
              (for_each-Pointwise E s (resolve_variable E s) ids resolutions (whole.0 h)),
        λ h. whole.1 (
            Pointwise-for_each E s (resolve_variable E s) ids resolutions
              (Pointwise-map (λ id r. (resolve_variable_unchecked_iff id r).0) ids resolutions h)),
      )

  -- The traced batch gives a list of traces exactly when each variable alone has the trace at its
  -- place.
  pub trace_variable_resolutions_unchecked_iff :
      (traces : List (VariableResolutionTrace E))
      → (trace_variable_resolutions_unchecked E s ≡ ok traces)
        ↔ Pointwise
            (λ id trace. trace_variable_unchecked E s id ≡ ok trace)
            (keys s.runtime.variables)
            traces
  trace_variable_resolutions_unchecked_iff traces =
      let ids = keys s.runtime.variables in
      let whole : (trace_variable_resolutions_unchecked E s ≡ ok traces)
          ↔ Answers E s (for_each (resolve_variable_trace E s) ids) traces =
        unfold trace_variable_resolutions_unchecked in
        run_session_iff E s (for_each (resolve_variable_trace E s) ids) traces (new E) settled in
      (
        λ h.
            Pointwise-map (λ id t. (trace_variable_unchecked_iff id t).1) ids traces
              (for_each-Pointwise E s (resolve_variable_trace E s) ids traces (whole.0 h)),
        λ h. whole.1 (
            Pointwise-for_each E s (resolve_variable_trace E s) ids traces
              (Pointwise-map (λ id t. (trace_variable_unchecked_iff id t).0) ids traces h)),
      )

  -- The outcome of an id has a trace exactly when the variable resolves alone, and then that trace.
  abbrev pub IsOutcomeOf : Bytes → VariableTraceOutcome E → Type 0
  IsOutcomeOf id outcome =
      (outcome.id ≡ id)
      × ((trace : VariableResolutionTrace E)
          → (outcome.trace ≡ some trace) ↔ (trace_variable_unchecked E s id ≡ ok trace))

  outcome_of_trace :
      (id : Bytes) (r : Result Stop (VariableResolutionTrace E)) (trace : VariableResolutionTrace E)
      → ((outcome_of E id r).trace ≡ some trace) ↔ (r ≡ ok trace)
  outcome_of_trace id (ok t) trace = (λ h. ground arith, λ h. ground arith)
  outcome_of_trace id (err e) trace = (λ h. absurd (cc), λ h. absurd (cc))

  outcome_of_id :
      (id : Bytes) (r : Result Stop (VariableResolutionTrace E)) → (outcome_of E id r).id ≡ id
  outcome_of_id id (ok t) = refl
  outcome_of_id id (err e) = refl

  run-IsOutcomeOf :
      (id : Bytes) (state : ResolutionState E)
      → IsSettled E s state
      → IsOutcomeOf id (outcome_of E id (run_session E s (resolve_variable_trace E s id) state).0)
  run-IsOutcomeOf id state h =
      let r = (run_session E s (resolve_variable_trace E s id) state).0 in
      (
        outcome_of_id id r,
        λ trace. (
          λ g. (trace_variable_unchecked_iff id trace).1 (
              (run_session_iff E s (resolve_variable_trace E s id) trace state h).0
                ((outcome_of_trace id r trace).0 g)),
          λ g. (outcome_of_trace id r trace).1 (
              (run_session_iff E s (resolve_variable_trace E s id) trace state h).1
                ((trace_variable_unchecked_iff id trace).0 g)),
        ),
      )

  trace_outcomes-Pointwise :
      (ids : List Bytes) (state : ResolutionState E)
      → IsSettled E s state
      → Pointwise IsOutcomeOf ids (trace_outcomes E s ids state)
  unfolding trace_outcomes
  trace_outcomes-Pointwise [] state h = tt
  trace_outcomes-Pointwise (id ∷ ids) state h = (
    run-IsOutcomeOf id state h,
    trace_outcomes-Pointwise ids (run_session E s (resolve_variable_trace E s id) state).1
        (run_session-IsSettled E s (resolve_variable_trace E s id) state h),
  )

  -- The lenient batch has one outcome for each variable, in order, with its id; the outcome has a
  -- trace exactly when the variable alone has one, and then it is that trace, whatever failed
  -- before it in the batch.
  pub trace_outcomes-IsOutcomeOf :
      Pointwise IsOutcomeOf
        (keys s.runtime.variables)
        (trace_variable_resolution_outcomes_unchecked E s)
  unfolding trace_variable_resolution_outcomes_unchecked
  trace_outcomes-IsOutcomeOf = trace_outcomes-Pointwise (keys s.runtime.variables) (new E) settled
