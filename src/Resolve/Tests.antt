-- ===== src/Resolve/Tests.antt =====
-- Runs of src/resolve.rs on the sample package.
use rototo.Base.{any, true, [], ◌∷◌, ◌≡◌, refl, codes, ok, err, lookup, text_eq, member}
use rototo.Resolve.Runtime.{reference_cycle, catalog_array_source}
use rototo.Resolve.Ask.{◌>>=◌, for_each}
use rototo.Resolve.Hash.{xor, hash_bytes, stable_unit_hash, bucket_value, allocation_bucket}
use rototo.Resolve.Evaluate.{cel_evaluate, evaluate_bool, to_cel, env_value, run_cel}
use rototo.Resolve.Trace.{
  select_rule, resolve_rules_trace, find_arm, assign_arm, resolve_allocation_trace,
}
use rototo.Resolve.Hydrate.{on_stack, with_id, hydrate_catalog_entry}
use rototo.Resolve.HydrateSchema.{
  catalog_entry_view, hydrate_schema_value, hydrate_step, hydrate_unreferenced, hydrate_parts,
  hydrate_properties, hydrate_items, hydrate_each,
}
use rototo.Resolve.Query.{
  take, filter_entries, sort_matches, select_array, select_matches, resolve_catalog_query,
  resolve_query_trace,
}
use rototo.Resolve.State.{
  failed, run, resolve_step, resolve_variable_trace, resolve_variable_value,
  resolve_variable_unchecked,
}
use rototo.Resolve.Sample.{flag, text, nil, item, array_of, engine, session, resolved}

-- The value of the unit test of the source.
known_bucket : bucket_value engine (codes "known-salt") (text (codes "user-123")) ≡ 9913
unfolding bucket_value stable_unit_hash hash_bytes xor
known_bucket = refl

-- Another variable decides which rule matches.
resolve_discount :
    resolve_variable_unchecked engine session (codes "discount")
    ≡ ok (resolved (codes "discount") (codes "ten"))
unfolding resolve_variable_unchecked run resolve_step resolve_variable_trace resolve_variable_value
    resolve_rules_trace select_rule cel_evaluate evaluate_bool to_cel env_value run_cel for_each
    ◌>>=◌ lookup member text_eq
resolve_discount = refl

resolve_loop :
    resolve_variable_unchecked engine session (codes "loop")
    ≡ err (failed (reference_cycle (codes "loop")))
unfolding resolve_variable_unchecked run resolve_step resolve_variable_trace resolve_variable_value
    resolve_rules_trace select_rule cel_evaluate evaluate_bool to_cel env_value run_cel for_each
    ◌>>=◌ lookup member text_eq
resolve_loop = refl

resolve_test :
    resolve_variable_unchecked engine session (codes "test")
    ≡ ok (resolved (codes "test") (codes "b"))
unfolding resolve_variable_unchecked run resolve_variable_trace resolve_allocation_trace assign_arm
    find_arm cel_evaluate evaluate_bool to_cel env_value run_cel for_each ◌>>=◌ lookup text_eq
    allocation_bucket stable_unit_hash hash_bytes xor
resolve_test = refl

resolve_banner :
    resolve_variable_unchecked engine session (codes "banner")
    ≡ ok (record {
      id = codes "banner";
      value =
          array_of (item (codes "on") (flag true) (item (codes "id") (text (codes "b")) nil) ∷ []);
      source = catalog_array_source (codes "banners") (codes "b" ∷ []);
    })
unfolding resolve_variable_unchecked run resolve_variable_trace resolve_query_trace
    resolve_catalog_query filter_entries catalog_entry_view hydrate_schema_value hydrate_step
    hydrate_unreferenced hydrate_parts hydrate_properties hydrate_items hydrate_each
    hydrate_catalog_entry on_stack with_id sort_matches select_matches select_array take
    cel_evaluate evaluate_bool to_cel env_value run_cel for_each ◌>>=◌ lookup text_eq any
resolve_banner = refl
