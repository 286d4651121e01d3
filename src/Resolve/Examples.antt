-- ===== src/Resolve/Examples.antt =====
-- The theorems on resolution at the package of the tests.
use rototo.Base.{
  Option, any, none, ℕ, true, false, List, [], ◌∷◌, some, ◌≡◌, ◌≢◌, ◌↔◌, refl, codes, ok, err,
  lookup, text_eq, keys,
}
use rototo.Resolve.Runtime.{RuntimeSelectedValue, literal, VariableResolutionTrace}
use rototo.Resolve.Trace.{RuleTraces, rules_trace_of, rule_trace, assigned_trace}
use rototo.Resolve.State.{
  out_of_fuel, run, resolve_variable_trace, run_session, new, resolve_variable,
  resolve_variable_unchecked, trace_variable_unchecked, resolve_variables_unchecked,
  trace_variable_resolutions_unchecked, trace_variable_resolution_outcomes_unchecked,
  resolve_variable_traced_unchecked,
}
use rototo.Resolve.Ask.{for_each, ◌>>=◌}
use rototo.Resolve.Evaluate.{cel_evaluate, evaluate_bool, to_cel, env_value, run_cel}
use rototo.Resolve.Hydrate.{on_stack, with_id, hydrate_catalog_entry}
use rototo.Resolve.HydrateSchema.{
  catalog_entry_view, hydrate_schema_value, hydrate_step, hydrate_unreferenced, hydrate_parts,
  hydrate_properties, hydrate_items, hydrate_each,
}
use rototo.Resolve.Query.{
  take, filter_entries, sort_matches, select_array, select_matches, resolve_catalog_query,
  resolve_query_trace, matches_value, query_trace_of,
}
use rototo.Resolve.QueryResults.{IsSelection, shown_default, query_trace-IsSelection}
use rototo.Resolve.Shown.{shown_trace}
use rototo.Resolve.Fuel.{run_session-Ends}
use rototo.Resolve.Answers.{Pointwise}
use rototo.Resolve.Memo.{Answers}
use rototo.Resolve.Batch.{
  IsOutcomeOf, resolve_variable_unchecked_iff, resolve_variables_unchecked_iff,
  trace_variable_resolutions_unchecked_iff, trace_outcomes-IsOutcomeOf,
}
use rototo.Resolve.Rules.{with_provenance}
use rototo.Resolve.ShownTraces.{
  FollowsRules, rules_trace_iff, FollowsAllocation, allocation_trace_iff,
}
use rototo.Resolve.Context.{IsContextFor, resolve_variable_checked, resolve_variable_checked_iff}
use rototo.Resolve.Runtime.{VariableResolution, VariableTraceCapture}
use rototo.Resolve.Traced.{AreMatching, IsCaptured, traced_iff}
use rototo.Resolve.Sample.{
  nil, banner, banner_entries, engine, session, resolved, text, discount_rules, allocation, rule,
  arm, variable_is,
}

run_session-Ends_example :
    ((run_session engine session (resolve_variable engine session (codes "loop")) (new engine)).0
      ≢ err out_of_fuel)
    × ((run_session engine session
          (resolve_variable engine session (codes "loop"))
          (new engine)).1.resolving
        ≡ [])
run_session-Ends_example =
    run_session-Ends engine session (resolve_variable engine session (codes "loop")) (new engine)

resolve_variable_unchecked_iff_example :
    (resolve_variable_unchecked engine session (codes "discount")
      ≡ ok (resolved (codes "discount") (codes "ten")))
    ↔ Answers engine session
        (resolve_variable engine session (codes "discount"))
        (resolved (codes "discount") (codes "ten"))
resolve_variable_unchecked_iff_example =
    resolve_variable_unchecked_iff engine session (codes "discount")
      (resolved (codes "discount") (codes "ten"))

resolve_variables_unchecked_iff_example :
    (resolve_variables_unchecked engine session ≡ ok (resolved (codes "plan") (codes "pro") ∷ []))
    ↔ Pointwise
        (λ id resolution. resolve_variable_unchecked engine session id ≡ ok resolution)
        (keys session.runtime.variables)
        (resolved (codes "plan") (codes "pro") ∷ [])
resolve_variables_unchecked_iff_example =
    resolve_variables_unchecked_iff engine session (resolved (codes "plan") (codes "pro") ∷ [])

trace_outcomes-IsOutcomeOf_example :
    Pointwise
      (IsOutcomeOf engine session)
      (keys session.runtime.variables)
      (trace_variable_resolution_outcomes_unchecked engine session)
trace_outcomes-IsOutcomeOf_example = trace_outcomes-IsOutcomeOf engine session

abbrev traces : RuleTraces engine
traces =
    rule_trace engine (rule (variable_is (codes "plan") (codes "free")) (codes "none")) false
    ∷ rule_trace engine (rule (variable_is (codes "plan") (codes "pro")) (codes "ten")) true
    ∷ []

abbrev ten : RuntimeSelectedValue engine
ten = literal (text (codes "ten"))

abbrev test_trace : VariableResolutionTrace engine
test_trace =
    with_provenance engine session (codes "test")
      (assigned_trace engine (codes "test") allocation 9913 (some (arm (codes "b") 9913 9913)))

abbrev discount_trace : VariableResolutionTrace engine
discount_trace =
    with_provenance engine session (codes "discount") (
      rules_trace_of engine (codes "discount") (literal (text (codes "unknown")))
        (some ten, traces))

trace_variable_resolutions_unchecked_iff_example :
    (trace_variable_resolutions_unchecked engine session ≡ ok (discount_trace ∷ []))
    ↔ Pointwise
        (λ id trace. trace_variable_unchecked engine session id ≡ ok trace)
        (keys session.runtime.variables)
        (discount_trace ∷ [])
trace_variable_resolutions_unchecked_iff_example =
    trace_variable_resolutions_unchecked_iff engine session (discount_trace ∷ [])

rules_trace_iff_example :
    (trace_variable_unchecked engine session (codes "discount") ≡ ok discount_trace)
    ↔ FollowsRules engine session
        (codes "discount")
        (literal (text (codes "unknown")))
        discount_rules
        discount_trace
unfolding lookup text_eq
rules_trace_iff_example =
    rules_trace_iff engine session (codes "discount") (literal (text (codes "unknown")))
      discount_rules discount_trace refl

allocation_trace_iff_example :
    (trace_variable_unchecked engine session (codes "test") ≡ ok test_trace)
    ↔ FollowsAllocation engine session (codes "test") allocation test_trace
unfolding lookup text_eq
allocation_trace_iff_example =
    allocation_trace_iff engine session (codes "test") allocation test_trace refl

abbrev discount_capture : VariableResolution engine × Option (VariableTraceCapture engine)
discount_capture =
    (discount_trace.resolution, some (record { trace = discount_trace; policies = [] }))

traced_iff_example :
    (resolve_variable_traced_unchecked engine session (codes "plan") true ≡ ok discount_capture) ↔ (
      (trace : VariableResolutionTrace engine) × (indices : List ℕ) × (trace_variable_unchecked
          engine session
          (codes "plan")
        ≡ ok trace)
      × AreMatching engine session (codes "plan") 0 session.runtime.trace_policies indices
      × (discount_capture.0 ≡ trace.resolution)
      × IsCaptured engine session true trace indices discount_capture.1)
traced_iff_example = traced_iff engine session (codes "plan") true discount_capture

resolve_variable_checked_iff_example :
    (resolve_variable_checked engine session (codes "plan")
      ≡ ok (resolved (codes "plan") (codes "pro")))
    ↔ (IsContextFor engine session.runtime (codes "plan") session.context
        × (resolve_variable_unchecked engine session (codes "plan")
            ≡ ok (resolved (codes "plan") (codes "pro"))))
resolve_variable_checked_iff_example =
    resolve_variable_checked_iff engine session (codes "plan")
      (resolved (codes "plan") (codes "pro"))

abbrev banner_value : RuntimeSelectedValue engine
banner_value = matches_value engine banner banner_entries ((codes "b", nil) ∷ [])

abbrev banner_trace : VariableResolutionTrace engine
banner_trace =
    with_provenance engine session (codes "banner")
      (query_trace_of engine (codes "banner") none banner_value)

query_trace-IsSelection_example :
    (selected : RuntimeSelectedValue engine) × IsSelection engine session banner selected
    × (banner_trace
        ≡ shown_trace engine
            (codes "banner")
            (shown_default engine session none)
            selected
            []
            none
            (lookup session.runtime.resolve_provenance (codes "banner")))
unfolding trace_variable_unchecked run resolve_variable_trace resolve_query_trace
    resolve_catalog_query filter_entries catalog_entry_view hydrate_schema_value hydrate_step
    hydrate_unreferenced hydrate_parts hydrate_properties hydrate_items hydrate_each
    hydrate_catalog_entry on_stack with_id sort_matches select_matches select_array take
    cel_evaluate evaluate_bool to_cel env_value run_cel for_each ◌>>=◌ lookup text_eq any
query_trace-IsSelection_example =
    query_trace-IsSelection engine session (codes "banner") banner banner_trace refl refl
