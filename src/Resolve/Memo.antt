-- ===== src/Resolve/Memo.antt =====
-- The cache of `ResolutionState` (src/resolve.rs) against the plain evaluation.
use rototo.Base.{
  ℕ, zero, suc, ◌+◌, Bool, true, false, [], ◌∷◌, Option, none, some, ◌≡◌, refl, sym, inl, inr,
  arith, Bytes, Result, ok, err, All, Map, lookup, member, text_eq-eq, text_eq, Bool-cases,
}
use rototo.Resolve.Engine.{Engine}
use rototo.Resolve.Runtime.{VariableResolution}
use rototo.Resolve.Ask.{Ask, give, fail, ask}
use rototo.Resolve.Evaluate.{Session}
use rototo.Resolve.State.{
  Stop, ResolutionState, Run, Resolver, continue, run, resolve_variable, leave, resolve_step,
  resolve_variable_value, run_session, fuel,
}
use rototo.Resolve.Plain.{answer, evaluate, answer_mono, eq-ok-evaluate, evaluate_le}

module _ (E : Engine) (s : Session E) where
  open E use {Json}

  -- the plain evaluation gives the id the value
  abbrev pub Evaluates : Bytes → Json → Type 0
  Evaluates id value = (n : ℕ) × (evaluate E n s id ≡ ok value)

  abbrev pub Answers : {A : Type 0} → Ask Json A → A → Type 0
  Answers code a = (n : ℕ) × (answer E (evaluate E n s) code ≡ ok a)

  abbrev pub IsTrueCache : Map Json → Type 0
  IsTrueCache cache = All (λ (id, value). Evaluates id value) cache

  pub lookup-Evaluates :
      (cache : Map Json) (id : Bytes) (value : Json)
      → IsTrueCache cache
      → lookup cache id ≡ some value
      → Evaluates id value
  unfolding lookup
  lookup-Evaluates [] id value h e = cc
  lookup-Evaluates ((k, v) ∷ cache) id value ((n, hv), h) e = elim (Bool-cases (text_eq k id)) [
    | inl m ↦
        let same = text_eq-eq k id m in
        let found : v ≡ value = ground arith in (n, rw (sym same, sym found) hv)
    | inr m ↦ lookup-Evaluates cache id value h (ground arith)
  ]

  -- A run keeps the cache true and, when it ends in a result, gives a result of the plain code.
  abbrev AgreesAt : {A : Type 0} → Result Stop A × ResolutionState E → (A → Type 0) → Type 0
  AgreesAt {A = A} r Holds = IsTrueCache r.1.variable_cache × ((a : A) → r.0 ≡ ok a → Holds a)

  abbrev pub Agrees : {A : Type 0} → Run E A → (A → Type 0) → Type 0
  Agrees code Holds =
      (state : ResolutionState E) → IsTrueCache state.variable_cache → AgreesAt (code state) Holds

  answer_ask :
      {A : Type 0} (id : Bytes) (next : Json → Ask Json A) (value : Json) (a : A)
      → Evaluates id value
      → Answers (next value) a
      → Answers (ask id next) a
  unfolding answer
  answer_ask id next value a (n, first) (m, rest) = (
    m + n,
    rw (evaluate_le E n (m + n) s (omega arith) id value first) (
        answer_mono E (evaluate E m s) (evaluate E (m + n) s)
          (evaluate_le E m (m + n) s (omega arith)) (next value) rest),
  )

  continue-AgreesAt :
      {A : Type 0} (id : Bytes) (next : Json → Ask Json A) (resolver : Resolver E)
      (r : Result Stop Json × ResolutionState E)
      → AgreesAt r (Evaluates id)
      → ((value : Json) → Agrees (run E resolver (next value)) (Answers (next value)))
      → AgreesAt (continue E r (λ value. run E resolver (next value))) (Answers (ask id next))
  continue-AgreesAt id next resolver (err e, state) (true_cache, holds) rest =
      (true_cache, λ a f. absurd (cc))
  continue-AgreesAt id next resolver (ok value, state) (true_cache, holds) rest =
      let (kept, answers) = rest value state true_cache in
      (kept, λ a f. answer_ask id next value a (holds value refl) (answers a f))

  run-Agrees :
      {A : Type 0} (resolver : Resolver E)
      → ((id : Bytes) → Agrees (resolver id) (Evaluates id))
      → (code : Ask Json A) → Agrees (run E resolver code) (Answers code)
  unfolding run answer
  run-Agrees resolver h (give a) state t = (t, λ b f. (0, f))
  run-Agrees resolver h (fail e) state t = (t, λ b f. absurd (cc))
  run-Agrees resolver h (ask id next) state t =
      continue-AgreesAt id next resolver (resolver id state) (h id state t)
        (λ value. run-Agrees resolver h (next value))

  leave-AgreesAt :
      (id : Bytes) (r : Result Stop (VariableResolution E) × ResolutionState E)
      → AgreesAt r (Answers (resolve_variable E s id))
      → AgreesAt (leave E id r) (Evaluates id)
  leave-AgreesAt id (err e, state) (t, holds) = (t, λ a f. absurd (cc))
  leave-AgreesAt id (ok resolution, state) (t, holds) =
      let (n, body) = holds resolution refl in
      let value : Evaluates id resolution.value = (suc n, eq-ok-evaluate E n s id body) in
      ((value, t), λ a f. let same : resolution.value ≡ a = ground arith in rw (sym same) value)

  resolve_step-AgreesAt :
      (resolver : Resolver E) (id : Bytes) (cached : Option Json) (busy : Bool)
      (state : ResolutionState E)
      → ((j : Bytes) → Agrees (resolver j) (Evaluates j))
      → IsTrueCache state.variable_cache
      → lookup state.variable_cache id ≡ cached
      → AgreesAt (resolve_step E resolver s id cached busy state) (Evaluates id)
  unfolding resolve_step
  resolve_step-AgreesAt resolver id (some value) busy state h t e = (
    t,
    λ a f.
        let same : value ≡ a = ground arith in
        rw (sym same) (lookup-Evaluates state.variable_cache id value t e),
  )
  resolve_step-AgreesAt resolver id none true state h t e = (t, λ a f. absurd (cc))
  resolve_step-AgreesAt resolver id none false state h t e =
      let inner : ResolutionState E = record state { resolving = id ∷ state.resolving } in
      leave-AgreesAt id (run E resolver (resolve_variable E s id) inner)
        (run-Agrees resolver h (resolve_variable E s id) inner t)

  pub resolve_variable_value-Agrees :
      (n : ℕ) (id : Bytes) → Agrees (resolve_variable_value E n s id) (Evaluates id)
  unfolding resolve_variable_value
  resolve_variable_value-Agrees zero id state t = (t, λ a f. absurd (cc))
  resolve_variable_value-Agrees (suc n) id state t =
      resolve_step-AgreesAt (resolve_variable_value E n s) id (lookup state.variable_cache id)
        (member state.resolving id) state (resolve_variable_value-Agrees n) t refl

  pub run_session-Agrees :
      {A : Type 0} (code : Ask Json A) → Agrees (run_session E s code) (Answers code)
  run_session-Agrees code =
      run-Agrees (resolve_variable_value E (fuel E s) s) (resolve_variable_value-Agrees (fuel E s))
        code
