-- ===== src/Resolve/Traced.antt =====
-- `resolve_variable_traced_unchecked` of src/resolve.rs: the trace policies and the capture.
use mathlib.Core.Path.{subst}
use rototo.Base.{
  true, false, some, none, refl, ap, inl, inr, ◌⊎◌, ◌≢◌, ℕ, suc, Bool, List, [], ◌∷◌, Option, ◌≡◌,
  ◌↔◌, sym, Bytes, ok, if◌then◌else◌,
}
use rototo.Resolve.Engine.{Engine}
use rototo.Resolve.Runtime.{
  VariableResolution, VariableResolutionTrace, VariableTraceCapture, RuntimeTracePolicy,
}
use rototo.Resolve.Ask.{give, ◌>>=◌}
use rototo.Resolve.Evaluate.{Session, evaluate_bool_traced}
use rototo.Resolve.State.{
  new, resolve_variable_trace, trace_variable_unchecked, match_policies, evaluate_trace_policies,
  capture, traced, resolve_variable_traced_unchecked,
}
use rototo.Resolve.Memo.{Answers}
use rototo.Resolve.Complete.{run_session_iff}
use rototo.Resolve.Answers.{Answers-bind, bind-Answers, Answers-give, give-Answers}
use rototo.Resolve.Batch.{settled, trace_variable_unchecked_iff}

module _ (E : Engine) (s : Session E) where
  -- the indices, from `index` on, of the policies whose condition holds
  abbrev pub AreMatching : Bytes → ℕ → List (RuntimeTracePolicy E) → List ℕ → Type 0
  AreMatching id index [] indices = indices ≡ []
  AreMatching id index (policy ∷ policies) indices =
      (matched : Bool) × (rest : List ℕ) × Answers E s
        (evaluate_bool_traced E s policy.condition id) matched
      × AreMatching id (suc index) policies rest
      × (indices ≡ (if matched then index ∷ rest else rest))

  match_policies-AreMatching :
      (id : Bytes) (index : ℕ) (policies : List (RuntimeTracePolicy E)) (indices : List ℕ)
      → Answers E s (match_policies E s id index policies) indices
      → AreMatching id index policies indices
  unfolding match_policies
  match_policies-AreMatching id index [] indices h = sym (Answers-give E s [] indices h)
  match_policies-AreMatching id index (policy ∷ policies) indices h =
      let (matched, test, others) =
        Answers-bind E s (evaluate_bool_traced E s policy.condition id)
          (λ matched. match_policies E s id (suc index) policies >>= λ rest.
            give (if matched then index ∷ rest else rest))
          indices h in
      let (rest, more, last) =
        Answers-bind E s (match_policies E s id (suc index) policies)
          (λ rest. give (if matched then index ∷ rest else rest)) indices others in
      (
        matched,
        rest,
        test,
        match_policies-AreMatching id (suc index) policies rest more,
        sym (Answers-give E s (if matched then index ∷ rest else rest) indices last),
      )

  AreMatching-match_policies :
      (id : Bytes) (index : ℕ) (policies : List (RuntimeTracePolicy E)) (indices : List ℕ)
      → AreMatching id index policies indices
      → Answers E s (match_policies E s id index policies) indices
  unfolding match_policies
  AreMatching-match_policies id index [] indices h = rw h (give-Answers E s [])
  AreMatching-match_policies id index (policy ∷ policies) indices
        (matched, rest, test, more, same) =
      let out = if matched then index ∷ rest else rest in
      rw same (
        bind-Answers E s (evaluate_bool_traced E s policy.condition id)
          (λ matched. match_policies E s id (suc index) policies >>= λ rest.
            give (if matched then index ∷ rest else rest))
          matched out test
          (bind-Answers E s (match_policies E s id (suc index) policies)
            (λ rest. give (if matched then index ∷ rest else rest)) rest out
            (AreMatching-match_policies id (suc index) policies rest more) (give-Answers E s out)))

  -- the trace with the policies, if the application asks for it or there is one, and else none
  abbrev pub IsCaptured :
      Bool → VariableResolutionTrace E → List ℕ → Option (VariableTraceCapture E) → Type 0
  IsCaptured app_requested trace indices captured =
      (((app_requested ≡ true) ⊎ (indices ≢ []))
        × (captured ≡ some (record { trace = trace; policies = indices })))
      ⊎ ((app_requested ≡ false) × (indices ≡ []) × (captured ≡ none))

  capture-IsCaptured :
      (app_requested : Bool) (trace : VariableResolutionTrace E) (indices : List ℕ)
      → IsCaptured app_requested trace indices (capture E app_requested trace indices).1
  capture-IsCaptured true trace indices = inl (inl refl, refl)
  capture-IsCaptured false trace [] = inr (refl, refl, refl)
  capture-IsCaptured false trace (i ∷ indices) = inl (inr (λ h. cc), refl)

  IsCaptured-capture :
      (app_requested : Bool) (trace : VariableResolutionTrace E) (indices : List ℕ)
      (captured : Option (VariableTraceCapture E))
      → IsCaptured app_requested trace indices captured
      → captured ≡ (capture E app_requested trace indices).1
  IsCaptured-capture true trace indices captured (inl (why, same)) = same
  IsCaptured-capture true trace indices captured (inr (no_request, empty, same)) = absurd (cc)
  IsCaptured-capture false trace [] captured (inl (inl request, same)) = absurd (cc)
  IsCaptured-capture false trace [] captured (inl (inr some_index, same)) = absurd (some_index refl)
  IsCaptured-capture false trace [] captured (inr (no_request, empty, same)) = same
  IsCaptured-capture false trace (i ∷ indices) captured (inl (why, same)) = same
  IsCaptured-capture false trace (i ∷ indices) captured (inr (no_request, empty, same)) =
      absurd (cc)

  pair : {A B : Type 0} {a c : A} {b d : B} → a ≡ c → b ≡ d → Path (A × B) (a, b) (c, d)
  pair h g i = (h i, g i)

  -- Traced resolution succeeds exactly when the variable has a trace and every trace policy
  -- evaluates; it gives the resolution of that trace, and with it the trace and the indices of the
  -- matching policies when the application asks for the trace or there is a matching policy, and
  -- nothing else when neither holds.
  pub traced_iff :
      (id : Bytes) (app_requested : Bool)
      (out : VariableResolution E × Option (VariableTraceCapture E))
      → (resolve_variable_traced_unchecked E s id app_requested ≡ ok out) ↔ (
          (trace : VariableResolutionTrace E) × (indices : List ℕ) × (trace_variable_unchecked E s
              id
            ≡ ok trace)
          × AreMatching id 0 s.runtime.trace_policies indices
          × (out.0 ≡ trace.resolution)
          × IsCaptured app_requested trace indices out.1)
  traced_iff id app_requested out =
      let whole : (resolve_variable_traced_unchecked E s id app_requested ≡ ok out)
          ↔ Answers E s (traced E s id app_requested) out =
        unfold resolve_variable_traced_unchecked in
        run_session_iff E s (traced E s id app_requested) out (new E) (settled E s) in
      (
        λ h.
            let (trace, first, others) =
              Answers-bind E s (resolve_variable_trace E s id)
                (λ trace.
                  evaluate_trace_policies E s id >>= λ is. give (capture E app_requested trace is))
                out (whole.0 h) in
            let (indices, matching, last) =
              Answers-bind E s (evaluate_trace_policies E s id)
                (λ is. give (capture E app_requested trace is)) out others in
            let built = Answers-give E s (capture E app_requested trace indices) out last in
            (
              trace,
              indices,
              (trace_variable_unchecked_iff E s id trace).1 first,
              match_policies-AreMatching id 0 s.runtime.trace_policies indices matching,
              sym (ap (λ o. o.0) built),
              subst (λ o. IsCaptured app_requested trace indices o.1) built
                  (capture-IsCaptured app_requested trace indices),
            ),
        λ (trace, indices, first, matching, resolved, captured).
            let found = capture E app_requested trace indices in
            let same : out ≡ found =
              pair resolved (IsCaptured-capture app_requested trace indices out.1 captured) in
            let last : Answers E s (give found) out = rw same (give-Answers E s found) in
            whole.1 (
              bind-Answers E s (resolve_variable_trace E s id)
                (λ trace.
                  evaluate_trace_policies E s id >>= λ is. give (capture E app_requested trace is))
                trace out ((trace_variable_unchecked_iff E s id trace).0 first)
                (bind-Answers E s (evaluate_trace_policies E s id)
                  (λ is. give (capture E app_requested trace is)) indices out
                  (AreMatching-match_policies id 0 s.runtime.trace_policies indices matching)
                  last)),
      )
