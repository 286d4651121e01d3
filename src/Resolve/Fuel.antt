-- ===== src/Resolve/Fuel.antt =====
-- The fuel of the recursion of src/resolve.rs over referenced variables, and the set `resolving`.
use rototo.Base.{
  ℕ, zero, suc, ◌<◌, Bool, true, false, List, ◌∷◌, Option, none, some, ◌≡◌, ◌≢◌, ◌∙◌, inl, inr,
  refl, arith, Bytes, Result, ok, err, lookup, keys, member, count_outside, count_outside_lt,
  count_outside-le_length, member-keys, remove_added, Option-cases,
}
use rototo.Resolve.Engine.{Engine}
use rototo.Resolve.Runtime.{VariableResolution, variable_not_found}
use rototo.Resolve.Ask.{Ask, give, fail, ask, ◌>>=◌}
use rototo.Resolve.Evaluate.{Session}
use rototo.Resolve.State.{
  Stop, failed, out_of_fuel, ResolutionState, Run, Resolver, continue, run, resolve_variable_trace,
  resolve_variable, leave, resolve_step, resolve_variable_value, fuel, run_session,
}

module _ (E : Engine) where
  open E use {Json}

  -- The run ends in a result or an error of the source, with the same ids being resolved.
  abbrev pub Ends : {A : Type 0} → Run E A → List Bytes → Type 0
  Ends code ids =
      (state : ResolutionState E)
      → state.resolving ≡ ids
      → ((code state).0 ≢ err out_of_fuel) × ((code state).1.resolving ≡ ids)

  abbrev EndsWell : {A : Type 0} → Result Stop A × ResolutionState E → List Bytes → Type 0
  EndsWell r ids = (r.0 ≢ err out_of_fuel) × (r.1.resolving ≡ ids)

  continue-EndsWell :
      {A : Type 0} (r : Result Stop Json × ResolutionState E) (next : Json → Run E A)
      (ids : List Bytes)
      → EndsWell r ids
      → ((value : Json) → Ends (next value) ids)
      → EndsWell (continue E r next) ids
  continue-EndsWell (ok value, state) next ids (stops, same) rest = rest value state same
  continue-EndsWell (err e, state) next ids (stops, same) rest = (λ f. stops (ground arith), same)

  run-Ends :
      {A : Type 0} (resolver : Resolver E) (ids : List Bytes)
      → ((id : Bytes) → Ends (resolver id) ids)
      → (code : Ask Json A) → Ends (run E resolver code) ids
  unfolding run
  run-Ends resolver ids h (give a) state same = (λ f. cc, same)
  run-Ends resolver ids h (fail e) state same = (λ f. cc, same)
  run-Ends resolver ids h (ask id next) state same =
      continue-EndsWell (resolver id state) (λ value. run E resolver (next value)) ids
        (h id state same) (λ value. run-Ends resolver ids h (next value))

  leave-EndsWell :
      (id : Bytes) (ids : List Bytes) (r : Result Stop (VariableResolution E) × ResolutionState E)
      → member ids id ≡ false
      → EndsWell r (id ∷ ids)
      → EndsWell (leave E id r) ids
  leave-EndsWell id ids (ok resolution, state) out (stops, same) =
      (λ f. cc, rw same (remove_added id ids out))
  leave-EndsWell id ids (err e, state) out (stops, same) =
      (λ f. stops (ground arith), rw same (remove_added id ids out))

  -- an unknown id asks for nothing
  pub unknown_variable :
      (s : Session E) (resolver : Resolver E) (id : Bytes) (state : ResolutionState E)
      → lookup s.runtime.variables id ≡ none
      → run E resolver (resolve_variable E s id) state
        ≡ (err (failed (variable_not_found id)), state)
  unfolding run resolve_variable_trace ◌>>=◌
  unknown_variable s resolver id state h = rw h refl

  abbrev pub variable_ids : Session E → List Bytes
  variable_ids s = keys s.runtime.variables

  resolve_step-EndsWell :
      (n : ℕ) (s : Session E) (id : Bytes) (state : ResolutionState E) (cached : Option Json)
      (busy : Bool)
      → ((ids : List Bytes)
          → count_outside (variable_ids s) ids < n
          → (j : Bytes) → Ends (resolve_variable_value E n s j) ids)
      → count_outside (variable_ids s) state.resolving < suc n
      → member state.resolving id ≡ busy
      → EndsWell
          (resolve_step E (resolve_variable_value E n s) s id cached busy state)
          state.resolving
  unfolding resolve_step
  resolve_step-EndsWell n s id state (some value) busy ih h m = (λ f. cc, refl)
  resolve_step-EndsWell n s id state none true ih h m = (λ f. cc, refl)
  resolve_step-EndsWell n s id state none false ih h m =
      let inner : ResolutionState E = record state { resolving = id ∷ state.resolving } in
      leave-EndsWell id state.resolving
        (run E (resolve_variable_value E n s) (resolve_variable E s id) inner) m
        (elim (Option-cases (lookup s.runtime.variables id)) [
          | inl e ↦
              rw (unknown_variable s (resolve_variable_value E n s) id inner e) (λ f. cc, refl)
          | inr (v, e) ↦
              let fewer =
                count_outside_lt (variable_ids s) id state.resolving
                  (member-keys s.runtime.variables id v e) m in
              run-Ends (resolve_variable_value E n s) (id ∷ state.resolving)
                (ih (id ∷ state.resolving) (omega (arith, fewer, h))) (resolve_variable E s id)
                inner refl
        ])

  pub resolve_variable_value-Ends :
      (n : ℕ) (s : Session E) (ids : List Bytes)
      → count_outside (variable_ids s) ids < n
      → (id : Bytes) → Ends (resolve_variable_value E n s id) ids
  unfolding resolve_variable_value
  resolve_variable_value-Ends zero s ids h id state same = absurd (omega (arith, h))
  resolve_variable_value-Ends (suc n) s ids h id state same =
      let step =
        resolve_step-EndsWell n s id state (lookup state.variable_cache id)
          (member state.resolving id) (resolve_variable_value-Ends n s) (rw same h) refl in
      (step.0, step.1 ∙ same)

  pub enough_fuel :
      (s : Session E) (ids : List Bytes) → count_outside (variable_ids s) ids < fuel E s
  enough_fuel s ids = omega (arith, count_outside-le_length (variable_ids s) ids)

  -- Code that runs with the fuel of a session, which is one more than the number of variables,
  -- from any state, does not run out of fuel, and leaves the set of the ids that are being
  -- resolved as it was, after an error too.
  pub run_session-Ends :
      {A : Type 0} (s : Session E) (code : Ask Json A) (state : ResolutionState E)
      → ((run_session E s code state).0 ≢ err out_of_fuel)
        × ((run_session E s code state).1.resolving ≡ state.resolving)
  run_session-Ends s code state =
      run-Ends (resolve_variable_value E (fuel E s) s) state.resolving
        (resolve_variable_value-Ends (fuel E s) s state.resolving (enough_fuel s state.resolving))
        code state refl
