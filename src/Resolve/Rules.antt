-- ===== src/Resolve/Rules.antt =====
-- `resolve_rules_trace` of src/resolve.rs, and the provenance of a trace.
use mathlib.Core.Path.{subst}
use rototo.Base.{
  Bool, true, false, List, [], ◌∷◌, ◌++◌, Option, none, some, ◌≡◌, ◌↔◌, ◌⊎◌, inl, inr, refl, sym,
  ap, ◌∙◌, Bytes, ok, All, map, lookup, append-nil,
}
use rototo.Resolve.Engine.{Engine}
use rototo.Resolve.Runtime.{
  RuntimeRule, RuntimeSelectedValue, RuntimeResolution, rules_resolution, VariableResolutionTrace,
}
use rototo.Resolve.Ask.{give, ◌>>=◌}
use rototo.Resolve.Evaluate.{Session}
use rototo.Resolve.Trace.{
  evaluate_rule_condition, rule_trace, RuleTraces, Selection, behind, next_rule, select_rule,
  rules_trace_of, resolve_rules_trace,
}
use rototo.Resolve.State.{resolve_method, resolve_variable_trace, trace_variable_unchecked}
use rototo.Resolve.Memo.{Answers}
use rototo.Resolve.Answers.{Answers-bind, bind-Answers, Answers-give, give-Answers}
use rototo.Resolve.Batch.{trace_variable_unchecked_iff}

module _ (E : Engine) (s : Session E) where
  open E use {Json}

  abbrev pub with_provenance : Bytes → VariableResolutionTrace E → VariableResolutionTrace E
  with_provenance id trace = record trace { provenance = lookup s.runtime.resolve_provenance id }

  known_code :
      (id : Bytes) (resolution : RuntimeResolution E)
      → lookup s.runtime.variables id ≡ some resolution
      → resolve_variable_trace E s id
        ≡ (resolve_method E s id resolution >>= λ t. give (with_provenance id t))
  unfolding resolve_variable_trace ◌>>=◌
  known_code id resolution known = rw known refl

  -- The trace of a variable is that of its method, with the provenance of the package.
  pub method-trace :
      (id : Bytes) (resolution : RuntimeResolution E) (trace : VariableResolutionTrace E)
      → lookup s.runtime.variables id ≡ some resolution
      → trace_variable_unchecked E s id ≡ ok trace
      → (t : VariableResolutionTrace E) × Answers E s (resolve_method E s id resolution) t
        × (trace ≡ with_provenance id t)
  method-trace id resolution trace known h =
      let whole = (trace_variable_unchecked_iff E s id trace).0 h in
      let code = subst (λ c. Answers E s c trace) (known_code id resolution known) whole in
      let (t, method, last) =
        Answers-bind E s (resolve_method E s id resolution) (λ t. give (with_provenance id t)) trace
          code in
      (t, method, sym (Answers-give E s (with_provenance id t) trace last))

  pub trace-method :
      (id : Bytes) (resolution : RuntimeResolution E) (t : VariableResolutionTrace E)
      → lookup s.runtime.variables id ≡ some resolution
      → Answers E s (resolve_method E s id resolution) t
      → trace_variable_unchecked E s id ≡ ok (with_provenance id t)
  trace-method id resolution t known h =
      (trace_variable_unchecked_iff E s id (with_provenance id t)).1 (
        subst (λ c. Answers E s c (with_provenance id t)) (sym (known_code id resolution known))
          (bind-Answers E s (resolve_method E s id resolution) (λ t. give (with_provenance id t)) t
            (with_provenance id t) h (give-Answers E s (with_provenance id t))))

  -- the condition of a rule evaluates to this
  abbrev pub Condition : RuntimeRule E → Bool → Type 0
  Condition rule value = Answers E s (evaluate_rule_condition E s rule) value

  abbrev pub unmatched : List (RuntimeRule E) → RuleTraces E
  unmatched rules = map (λ rule. rule_trace E rule false) rules

  -- A rule whose condition holds stands behind rules whose conditions do not, or no condition holds.
  abbrev pub IsFirstMatch : List (RuntimeRule E) → Selection E → Type 0
  IsFirstMatch rules (selected, traces) =
      ((before : List (RuntimeRule E)) × (rule : RuntimeRule E) × (after : List (RuntimeRule E))
        × (rules ≡ before ++ rule ∷ after)
        × All (λ r. Condition r false) before
        × Condition rule true
        × (selected ≡ some rule.value)
        × (traces ≡ unmatched before ++ rule_trace E rule true ∷ []))
      ⊎ (All (λ r. Condition r false) rules × (selected ≡ none) × (traces ≡ unmatched rules))

  skip-IsFirstMatch :
      (rule : RuntimeRule E) (rules : List (RuntimeRule E)) (out : Selection E)
      → Condition rule false
      → IsFirstMatch rules out
      → IsFirstMatch (rule ∷ rules) (behind E rule out)
  skip-IsFirstMatch rule rules (selected, traces) c (inl (before, r, after, e, cs, t, v, u)) = inl (
    rule ∷ before,
    r,
    after,
    ap (λ rs. rule ∷ rs) e,
    (c, cs),
    t,
    v,
    ap (λ us. rule_trace E rule false ∷ us) u,
  )
  skip-IsFirstMatch rule rules (selected, traces) c (inr (cs, v, u)) =
      inr ((c, cs), v, ap (λ us. rule_trace E rule false ∷ us) u)

  next_rule-IsFirstMatch :
      (rule : RuntimeRule E) (rules : List (RuntimeRule E)) (matched : Bool) (out : Selection E)
      → ((o : Selection E) → Answers E s (select_rule E s rules) o → IsFirstMatch rules o)
      → Condition rule matched
      → Answers E s (next_rule E rule (select_rule E s rules) matched) out
      → IsFirstMatch (rule ∷ rules) out
  next_rule-IsFirstMatch rule rules true out ih c h =
      let same = Answers-give E s (some rule.value, rule_trace E rule true ∷ []) out h in
      rw (sym same) (inl ([], rule, rules, refl, tt, c, refl, refl))
  next_rule-IsFirstMatch rule rules false out ih c h =
      let (o, rest, last) =
        Answers-bind E s (select_rule E s rules) (λ o. give (behind E rule o)) out h in
      let same = Answers-give E s (behind E rule o) out last in
      rw (sym same) (skip-IsFirstMatch rule rules o c (ih o rest))

  select_rule-IsFirstMatch :
      (rules : List (RuntimeRule E)) (out : Selection E)
      → Answers E s (select_rule E s rules) out
      → IsFirstMatch rules out
  select_rule-IsFirstMatch [] out h =
      let same = Answers-give E s (none, []) out (unfold select_rule in h) in
      rw (sym same) (inr (tt, refl, refl))
  select_rule-IsFirstMatch (rule ∷ rules) out h =
      let (matched, c, rest) =
        Answers-bind E s (evaluate_rule_condition E s rule)
          (next_rule E rule (select_rule E s rules)) out (unfold select_rule in h) in
      next_rule-IsFirstMatch rule rules matched out (select_rule-IsFirstMatch rules) c rest

  -- behind rules whose conditions do not hold
  skip_rules :
      (before rules : List (RuntimeRule E)) (selected : Option (RuntimeSelectedValue E))
      (traces : RuleTraces E)
      → All (λ r. Condition r false) before
      → Answers E s (select_rule E s rules) (selected, traces)
      → Answers E s (select_rule E s (before ++ rules)) (selected, unmatched before ++ traces)
  unfolding select_rule
  skip_rules [] rules selected traces cs h = h
  skip_rules (rule ∷ before) rules selected traces (c, cs) h =
      let rest = skip_rules before rules selected traces cs h in
      let out : Selection E = (selected, unmatched before ++ traces) in
      bind-Answers E s (evaluate_rule_condition E s rule)
        (next_rule E rule (select_rule E s (before ++ rules))) false (behind E rule out) c
        (bind-Answers E s (select_rule E s (before ++ rules)) (λ o. give (behind E rule o)) out
          (behind E rule out) rest (give-Answers E s (behind E rule out)))

  IsFirstMatch-select_rule :
      (rules : List (RuntimeRule E)) (out : Selection E)
      → IsFirstMatch rules out
      → Answers E s (select_rule E s rules) out
  IsFirstMatch-select_rule rules (selected, traces) (inl (before, rule, after, e, cs, c, v, u)) =
      let found : Selection E = (some rule.value, rule_trace E rule true ∷ []) in
      let here : Answers E s (select_rule E s (rule ∷ after)) found =
        unfold select_rule in
        bind-Answers E s (evaluate_rule_condition E s rule)
          (next_rule E rule (select_rule E s after)) true found c (give-Answers E s found) in
      rw (e, v, u) (skip_rules before (rule ∷ after) found.0 found.1 cs here)
  IsFirstMatch-select_rule rules (selected, traces) (inr (cs, v, u)) =
      let last : Answers E s (select_rule E s []) (none, []) =
        unfold select_rule in give-Answers E s (none, []) in
      let whole = skip_rules rules [] none [] cs last in rw (v, u) (simp append-nil at whole)

  -- the trace by the selection of the loop
  pub rules_selection_iff :
      (id : Bytes) (default : RuntimeSelectedValue E) (rules : List (RuntimeRule E))
      (trace : VariableResolutionTrace E)
      → lookup s.runtime.variables id ≡ some (rules_resolution default rules)
      → (trace_variable_unchecked E s id ≡ ok trace) ↔ (
          (selection : Selection E) × IsFirstMatch rules selection
          × (trace ≡ with_provenance id (rules_trace_of E id default selection)))
  unfolding resolve_rules_trace
  rules_selection_iff id default rules trace known = (
    λ h.
        let (t, method, same) = method-trace id (rules_resolution default rules) trace known h in
        let (selection, rest, last) =
          Answers-bind E s (select_rule E s rules) (λ o. give (rules_trace_of E id default o)) t
            method in
        let built = Answers-give E s (rules_trace_of E id default selection) t last in
        (
          selection,
          select_rule-IsFirstMatch rules selection rest,
          same ∙ ap (with_provenance id) (sym built),
        ),
    λ (selection, first, same).
        let t = rules_trace_of E id default selection in
        rw same (
          trace-method id (rules_resolution default rules) t known (
            bind-Answers E s (select_rule E s rules) (λ o. give (rules_trace_of E id default o))
              selection t (IsFirstMatch-select_rule rules selection first) (give-Answers E s t))),
  )
