-- ===== src/Resolve/Complete.antt =====
-- The cache and the test for cycles of src/resolve.rs against the values of the plain evaluation.
use rototo.Base.{
  ℕ, zero, suc, ◌+◌, ◌<◌, Bool, true, false, List, [], ◌∷◌, Option, none, some, ◌≡◌, ◌≢◌, ◌↔◌, ◌∙◌,
  refl, sym, inl, inr, arith, Bytes, Result, ok, err, All, All-map, lookup, member, text_eq,
  text_eq-eq, count_outside, count_outside_lt, member-keys, Bool-cases, Option-cases, Result-cases,
}
use rototo.Resolve.Engine.{Engine}
use rototo.Resolve.Runtime.{VariableResolution, variable_not_found}
use rototo.Resolve.Ask.{Ask, give, fail, ask, ◌>>=◌}
use rototo.Resolve.Evaluate.{Session}
use rototo.Resolve.State.{
  Stop, failed, ResolutionState, Run, Resolver, continue, run, resolve_variable,
  resolve_variable_trace, leave, resolve_step, resolve_variable_value, run_session, fuel,
}
use rototo.Resolve.Plain.{
  answer, evaluate, and_then-eq-ok, evaluate-eq-ok, evaluate-suc, evaluate_le,
}
use rototo.Resolve.Fuel.{
  Ends, resolve_variable_value-Ends, variable_ids, enough_fuel, run_session-Ends,
}
use rototo.Resolve.Memo.{
  Evaluates, Answers, IsTrueCache, Agrees, lookup-Evaluates, resolve_variable_value-Agrees,
  run_session-Agrees,
}

module _ (E : Engine) (s : Session E) where
  open E use {Json}

  Evaluates-unique :
      (n : ℕ) (id : Bytes) (v w : Json) → evaluate E n s id ≡ ok v → Evaluates E s id w → w ≡ v
  Evaluates-unique n id v w h (m, g) =
      let a = evaluate_le E n (n + m) s (omega arith) id v h in
      let b = evaluate_le E m (n + m) s (omega arith) id w g in ground arith

  -- none of the ids that are being resolved has a value within `n` rounds
  abbrev AreUnfinished : ℕ → List Bytes → Type 0
  AreUnfinished n ids = All (λ id. (v : Json) → evaluate E n s id ≢ ok v) ids

  fewer_rounds : (n : ℕ) (ids : List Bytes) → AreUnfinished (suc n) ids → AreUnfinished n ids
  fewer_rounds n = All-map (λ id u v h. u v (evaluate-suc E n s id v h))

  member-finished :
      (n : ℕ) (ids : List Bytes) (id : Bytes) (v : Json)
      → AreUnfinished n ids
      → member ids id ≡ true
      → evaluate E n s id ≢ ok v
  unfolding member
  member-finished n [] id v u m = cc
  member-finished n (j ∷ ids) id v (u, us) m = λ h. elim (Bool-cases (text_eq j id)) [
    | inl e ↦ let same = text_eq-eq j id e in u v (rw same h)
    | inr e ↦ member-finished n ids id v us (ground arith) h
  ]

  -- in states with a true cache in which `ids` are being resolved
  abbrev FindsAll : ℕ → List Bytes → Resolver E → Type 0
  FindsAll n ids resolver =
      (id : Bytes) (value : Json) (state : ResolutionState E)
      → evaluate E n s id ≡ ok value
      → IsTrueCache E s state.variable_cache
      → state.resolving ≡ ids
      → (resolver id state).0 ≡ ok value

  continue-eq-ok :
      {A : Type 0} (r : Result Stop Json × ResolutionState E) (next : Json → Run E A) (value : Json)
      {out : Result Stop A}
      → r.0 ≡ ok value
      → (next value r.1).0 ≡ out
      → (continue E r next).0 ≡ out
  continue-eq-ok (ok v, state) next value h g = let same : v ≡ value = ground arith in rw same g
  continue-eq-ok (err e, state) next value h g = absurd (cc)

  run-finds :
      {A : Type 0} (n : ℕ) (ids : List Bytes) (resolver : Resolver E)
      → FindsAll n ids resolver
      → ((id : Bytes) → Ends E (resolver id) ids)
      → ((id : Bytes) → Agrees E s (resolver id) (Evaluates E s id))
      → (code : Ask Json A) (a : A) (state : ResolutionState E)
      → answer E (evaluate E n s) code ≡ ok a
      → IsTrueCache E s state.variable_cache
      → state.resolving ≡ ids
      → (run E resolver code state).0 ≡ ok a
  unfolding run answer
  run-finds n ids resolver finds ends agrees (give b) a state h t same = ground arith
  run-finds n ids resolver finds ends agrees (fail e) a state h t same = absurd (cc)
  run-finds n ids resolver finds ends agrees (ask id next) a state h t same =
      let (value, first, rest) =
        and_then-eq-ok E (evaluate E n s id) (λ v. answer E (evaluate E n s) (next v)) h in
      continue-eq-ok (resolver id state) (λ v. run E resolver (next v)) value
        (finds id value state first t same)
        (run-finds n ids resolver finds ends agrees (next value) a (resolver id state).1 rest
          (agrees id state t).0 (ends id state same).1)

  unknown_answer :
      (n : ℕ) (id : Bytes)
      → lookup s.runtime.variables id ≡ none
      → answer E (evaluate E n s) (resolve_variable E s id) ≡ err (failed (variable_not_found id))
  unfolding answer resolve_variable_trace ◌>>=◌
  unknown_answer n id h = rw h refl

  known_id :
      (n : ℕ) (id : Bytes) (resolution : VariableResolution E)
      → answer E (evaluate E n s) (resolve_variable E s id) ≡ ok resolution
      → member (variable_ids E s) id ≡ true
  known_id n id resolution h = elim (Option-cases (lookup s.runtime.variables id)) [
    | inl e ↦ let no = unknown_answer n id e in absurd (ground arith)
    | inr (v, e) ↦ member-keys s.runtime.variables id v e
  ]

  leave-eq-ok :
      (id : Bytes) (r : Result Stop (VariableResolution E) × ResolutionState E)
      (resolution : VariableResolution E)
      → r.0 ≡ ok resolution
      → (leave E id r).0 ≡ ok resolution.value
  leave-eq-ok id (ok found, state) resolution h =
      let same : found ≡ resolution = ground arith in rw same refl
  leave-eq-ok id (err e, state) resolution h = absurd (cc)

  -- The id is not in the cache, nor being resolved, and has its value only at this round.
  first_round :
      (n f : ℕ) (id : Bytes) (value : Json) (state : ResolutionState E)
      → FindsAll n (id ∷ state.resolving) (resolve_variable_value E f s)
      → count_outside (variable_ids E s) (id ∷ state.resolving) < f
      → evaluate E (suc n) s id ≡ ok value
      → IsTrueCache E s state.variable_cache
      → (resolve_step E (resolve_variable_value E f s) s id none false state).0 ≡ ok value
  unfolding resolve_step
  first_round n f id value state finds enough h t =
      let inner : ResolutionState E = record state { resolving = id ∷ state.resolving } in
      let (resolution, body, same) = evaluate-eq-ok E n s id h in
      let result =
        run-finds n (id ∷ state.resolving) (resolve_variable_value E f s) finds
          (resolve_variable_value-Ends E f s (id ∷ state.resolving) enough)
          (resolve_variable_value-Agrees E s f) (resolve_variable E s id) resolution inner body t
          refl in
      rw (sym same) (
        leave-eq-ok id (run E (resolve_variable_value E f s) (resolve_variable E s id) inner)
          resolution result)

  -- The two tests of the cache and of the ids being resolved, when the id has no value a round before.
  step_finds :
      (n f : ℕ) (id : Bytes) (value : Json) (state : ResolutionState E) (cached : Option Json)
      (busy : Bool)
      → ((ids : List Bytes)
          → AreUnfinished n ids
          → count_outside (variable_ids E s) ids < f
          → FindsAll n ids (resolve_variable_value E f s))
      → ((v : Json) → evaluate E n s id ≢ ok v)
      → AreUnfinished (suc n) state.resolving
      → count_outside (variable_ids E s) state.resolving < suc f
      → evaluate E (suc n) s id ≡ ok value
      → IsTrueCache E s state.variable_cache
      → lookup state.variable_cache id ≡ cached
      → member state.resolving id ≡ busy
      → (resolve_step E (resolve_variable_value E f s) s id cached busy state).0 ≡ ok value
  step_finds n f id value state (some w) busy ih new_id u enough h t c m =
      let same =
        Evaluates-unique (suc n) id value w h
          (lookup-Evaluates E s state.variable_cache id w t c) in
      unfold resolve_step in rw same refl
  step_finds n f id value state none true ih new_id u enough h t c m =
      absurd (member-finished (suc n) state.resolving id value u m h)
  step_finds n f id value state none false ih new_id u enough h t c m =
      let (resolution, body, same) = evaluate-eq-ok E n s id h in
      let fewer =
        count_outside_lt (variable_ids E s) id state.resolving (known_id n id resolution body) m in
      let less_fuel : count_outside (variable_ids E s) (id ∷ state.resolving) < f =
        omega (arith, fewer, enough) in
      first_round n f id value state
        (ih (id ∷ state.resolving) (new_id, fewer_rounds n state.resolving u) less_fuel) less_fuel h
        t

  value_finds :
      (n f : ℕ) (id : Bytes) (value : Json) (state : ResolutionState E)
      → ((ids : List Bytes)
          → AreUnfinished n ids
          → count_outside (variable_ids E s) ids < f
          → FindsAll n ids (resolve_variable_value E f s))
      → ((v : Json) → evaluate E n s id ≢ ok v)
      → AreUnfinished (suc n) state.resolving
      → count_outside (variable_ids E s) state.resolving < suc f
      → evaluate E (suc n) s id ≡ ok value
      → IsTrueCache E s state.variable_cache
      → (resolve_variable_value E (suc f) s id state).0 ≡ ok value
  unfolding resolve_variable_value
  value_finds n f id value state ih new_id u enough h t =
      step_finds n f id value state (lookup state.variable_cache id) (member state.resolving id) ih
        new_id u enough h t refl refl

  resolve_variable_value-finds :
      (n f : ℕ) (ids : List Bytes)
      → AreUnfinished n ids
      → count_outside (variable_ids E s) ids < f
      → FindsAll n ids (resolve_variable_value E f s)
  resolve_variable_value-finds zero f ids u enough id value state h t same =
      unfold evaluate in absurd (cc)
  resolve_variable_value-finds (suc n) zero ids u enough id value state h t same =
      absurd (omega (arith, enough))
  resolve_variable_value-finds (suc n) (suc f) ids u enough id value state h t same =
      elim (Result-cases (evaluate E n s id)) [
        | inl (w, e) ↦
            let found =
              resolve_variable_value-finds n (suc f) ids (fewer_rounds n ids u) enough id w state e
                t same in
            let equal = Evaluates-unique (suc n) id value w h (n, e) in rw (sym equal) found
        | inr (w, e) ↦
            value_finds n f id value state (λ js. resolve_variable_value-finds n f js)
              (λ v g. absurd (ground arith)) (rw same u) (rw same enough) h t
      ]

  -- A state with a true cache in which nothing is being resolved: the state at the start of a call.
  abbrev pub IsSettled : ResolutionState E → Type 0
  IsSettled state = IsTrueCache E s state.variable_cache × (state.resolving ≡ [])

  run_session-finds :
      {A : Type 0} (code : Ask Json A) (a : A) (state : ResolutionState E)
      → IsSettled state
      → Answers E s code a
      → (run_session E s code state).0 ≡ ok a
  run_session-finds code a state (t, same) (n, h) =
      run-finds n [] (resolve_variable_value E (fuel E s) s)
        (resolve_variable_value-finds n (fuel E s) [] tt (enough_fuel E s []))
        (resolve_variable_value-Ends E (fuel E s) s [] (enough_fuel E s []))
        (resolve_variable_value-Agrees E s (fuel E s)) code a state h t same

  pub run_session_iff :
      {A : Type 0} (code : Ask Json A) (a : A) (state : ResolutionState E)
      → IsSettled state
      → ((run_session E s code state).0 ≡ ok a) ↔ Answers E s code a
  run_session_iff code a state settled =
      ((run_session-Agrees E s code state settled.0).1 a, run_session-finds code a state settled)

  pub run_session-IsSettled :
      {A : Type 0} (code : Ask Json A) (state : ResolutionState E)
      → IsSettled state
      → IsSettled (run_session E s code state).1
  run_session-IsSettled code state (t, same) =
      ((run_session-Agrees E s code state t).0, (run_session-Ends E s code state).1 ∙ same)
