-- ===== src/Resolve/ShownTraces.antt =====
-- `resolve_rules_trace` and `resolve_allocation_trace` of src/resolve.rs: which trace a variable has.
use rototo.Base.{
  ℕ, ◌<◌, Bool, true, false, List, [], ◌∷◌, ◌++◌, Option, none, some, ◌≡◌, ◌↔◌, ◌⊎◌, inl, inr, refl,
  sym, ap, ◌∙◌, Bytes, ok, All, map, lookup,
}
use rototo.Resolve.Engine.{Engine}
use rototo.Resolve.Runtime.{
  RuntimeRule, RuntimeSelectedValue, rules_resolution, VariableResolutionTrace, RuntimeArm,
  RuntimeAllocation, allocation_resolution, VariableRuleResolutionTrace,
}
use rototo.Resolve.Evaluate.{Session, evaluate_bool, evaluate_value}
use rototo.Resolve.Trace.{
  rule_trace, rules_trace_of, allocation_trace_of, assigned_trace, not_enrolled,
}
use rototo.Resolve.State.{trace_variable_unchecked}
use rototo.Resolve.Memo.{Answers}
use rototo.Resolve.Shown.{
  shown_rule, shown_trace, rule_traces-shown, rule_trace-shown, shown_trace_lem,
}
use rototo.Resolve.Fnv.{IsBucketOf, allocation_bucket-IsBucketOf, IsBucketOf-allocation_bucket}
use rototo.Resolve.Arms.{IsArmOf}
use rototo.Resolve.Rules.{with_provenance, unmatched, rules_selection_iff}
use rototo.Resolve.Allocation.{EnrollmentIs, allocation_arm_iff}

module _ (E : Engine) (s : Session E) where
  open E use {Json}

  -- the condition of a rule evaluates to this
  abbrev pub ConditionIs : Bool → RuntimeRule E → Type 0
  ConditionIs value rule = Answers E s (evaluate_bool E s rule.condition none) value

  -- A rule whose condition holds stands behind rules whose conditions do not, and gives the value, or no
  -- condition holds, and the default is the value.
  abbrev pub FollowsRules :
      Bytes → RuntimeSelectedValue E → List (RuntimeRule E) → VariableResolutionTrace E → Type 0
  FollowsRules id default rules trace =
      ((before : List (RuntimeRule E)) × (rule : RuntimeRule E) × (after : List (RuntimeRule E))
        × (rules ≡ before ++ rule ∷ after)
        × All (ConditionIs false) before
        × ConditionIs true rule
        × (trace
            ≡ shown_trace E id default rule.value
                (map (shown_rule E false) before ++ shown_rule E true rule ∷ []) none
                (lookup s.runtime.resolve_provenance id)))
      ⊎ (All (ConditionIs false) rules
          × (trace
              ≡ shown_trace E id default default (map (shown_rule E false) rules) none
                  (lookup s.runtime.resolve_provenance id)))

  abbrev matched_traces :
      List (RuntimeRule E) → RuntimeRule E → List (VariableRuleResolutionTrace E)
  matched_traces before rule = unmatched E s before ++ rule_trace E rule true ∷ []

  matched_traces-shown :
      (before : List (RuntimeRule E)) (rule : RuntimeRule E)
      → matched_traces before rule
        ≡ (map (shown_rule E false) before ++ shown_rule E true rule ∷ [])
  matched_traces-shown before rule =
      λ i. rule_traces-shown E before i ++ rule_trace-shown E true rule i ∷ []

  rules-shown :
      (id : Bytes) (default selected : RuntimeSelectedValue E) (o : Option (RuntimeSelectedValue E))
      (traces shows : List (VariableRuleResolutionTrace E))
      → (o ≡ some selected) ⊎ ((o ≡ none) × (selected ≡ default))
      → traces ≡ shows
      → with_provenance E s id (rules_trace_of E id default (o, traces))
        ≡ shown_trace E id default selected shows none (lookup s.runtime.resolve_provenance id)
  rules-shown id default selected o traces shows (inl found) same =
      rw (found, same)
        (shown_trace_lem E id default selected shows none (lookup s.runtime.resolve_provenance id))
  rules-shown id default selected o traces shows (inr (found, is_default)) same =
      rw (found, same, is_default)
        (shown_trace_lem E id default default shows none (lookup s.runtime.resolve_provenance id))

  -- For a variable that resolves by rules: a trace is given exactly when a rule whose condition
  -- evaluates to true stands behind rules whose conditions evaluate to false, and the value and
  -- the source are those of that rule, or all the conditions evaluate to false, and they are those
  -- of the default; and the trace has the id, the default, the provenance of the package, no
  -- allocation, and the tested rules in order, each with its index, condition, value and source,
  -- the last one as matched in the first case.
  pub rules_trace_iff :
      (id : Bytes) (default : RuntimeSelectedValue E) (rules : List (RuntimeRule E))
      (trace : VariableResolutionTrace E)
      → lookup s.runtime.variables id ≡ some (rules_resolution default rules)
      → (trace_variable_unchecked E s id ≡ ok trace) ↔ FollowsRules id default rules trace
  rules_trace_iff id default rules trace known =
      let by_selection = rules_selection_iff E s id default rules trace known in
      (
        λ h.
            let ((selected, traces), first, same) = by_selection.0 h in
            elim first [
              | inl (before, rule, after, e, cs, c, v, u) ↦ inl (
                before,
                rule,
                after,
                e,
                cs,
                c,
                same
                    ∙ rules-shown id default rule.value selected traces _ (inl v)
                        (u ∙ matched_traces-shown before rule),
              )
              | inr (cs, v, u) ↦ inr (
                cs,
                same
                    ∙ rules-shown id default default selected traces _ (inr (v, refl))
                        (u ∙ rule_traces-shown E rules),
              )
            ],
        λ h. elim h [
          | inl (before, rule, after, e, cs, c, same) ↦ by_selection.1 (
            (some rule.value, matched_traces before rule),
            inl (before, rule, after, e, cs, c, refl, refl),
            same
                ∙ sym (
                    rules-shown id default rule.value (some rule.value) (matched_traces before rule)
                      _ (inl refl) (matched_traces-shown before rule)),
          )
          | inr (cs, same) ↦ by_selection.1 (
            (none, unmatched E s rules),
            inr (cs, refl, refl),
            same
                ∙ sym (
                    rules-shown id default default none (unmatched E s rules) _ (inr (refl, refl))
                      (rule_traces-shown E rules)),
          )
        ],
      )

  -- the value of the arm of a bucket and the name of that arm, or the default
  abbrev pub arm_shown :
      RuntimeAllocation E → Option (RuntimeArm E) → RuntimeSelectedValue E × Option Bytes
  arm_shown a none = (a.default, none)
  arm_shown a (some arm) = (arm.value, some arm.name)

  -- the unit is not enrolled, or its bucket has an arm
  abbrev pub FollowsAllocation : Bytes → RuntimeAllocation E → VariableResolutionTrace E → Type 0
  FollowsAllocation id a trace =
      (EnrollmentIs E s a.running a.eligibility false
        × (trace
            ≡ shown_trace E id a.default a.default []
                (some (record {
                  layer = a.layer;
                  allocation = a.allocation;
                  enrolled = false;
                  bucket = none;
                  arm = none;
                }))
                (lookup s.runtime.resolve_provenance id)))
      ⊎ (EnrollmentIs E s a.running a.eligibility true
          × (unit : Json) × (bucket : ℕ) × (arm : Option (RuntimeArm E)) × Answers E s
              (evaluate_value E s a.unit none) unit
          × IsBucketOf E a.layer unit a.buckets bucket
          × (bucket < a.buckets)
          × IsArmOf E a.arms bucket arm
          × (trace
              ≡ shown_trace E id a.default (arm_shown a arm).0 []
                  (some (record {
                    layer = a.layer;
                    allocation = a.allocation;
                    enrolled = true;
                    bucket = some bucket;
                    arm = (arm_shown a arm).1;
                  }))
                  (lookup s.runtime.resolve_provenance id)))

  assigned-shown :
      (id : Bytes) (a : RuntimeAllocation E) (bucket : ℕ) (arm : Option (RuntimeArm E))
      → with_provenance E s id (assigned_trace E id a bucket arm)
        ≡ shown_trace E id a.default
            (arm_shown a arm).0
            []
            (some (record {
              layer = a.layer;
              allocation = a.allocation;
              enrolled = true;
              bucket = some bucket;
              arm = (arm_shown a arm).1;
            }))
            (lookup s.runtime.resolve_provenance id)
  assigned-shown id a bucket none = shown_trace_lem E id a.default a.default [] _ _
  assigned-shown id a bucket (some arm) = shown_trace_lem E id a.default arm.value [] _ _

  -- For a variable that resolves by an allocation: a trace is given exactly when the unit is not
  -- enrolled (the allocation does not run, or its gate evaluates to false), and the value is the
  -- default, or it is enrolled, its bucket is the FNV-1a hash of the layer, a colon and the text
  -- of the unit, modulo the number of buckets, which is not 0, and as 32 bits, and the value is
  -- that of the first arm that claims the bucket, or the default when none does; and the trace has
  -- the id, the default, the provenance, no rules, and the layer, the allocation, the enrollment,
  -- the bucket and the name of the arm.
  pub allocation_trace_iff :
      (id : Bytes) (a : RuntimeAllocation E) (trace : VariableResolutionTrace E)
      → lookup s.runtime.variables id ≡ some (allocation_resolution a)
      → (trace_variable_unchecked E s id ≡ ok trace) ↔ FollowsAllocation id a trace
  allocation_trace_iff id a trace known =
      let by_arm = allocation_arm_iff E s id a trace known in
      let apart : with_provenance E s id (allocation_trace_of E id a none (not_enrolled E a))
          ≡ shown_trace E id a.default a.default [] (some (not_enrolled E a))
              (lookup s.runtime.resolve_provenance id) =
        shown_trace_lem E id a.default a.default [] (some (not_enrolled E a))
          (lookup s.runtime.resolve_provenance id) in
      (
        λ h.
            let (t, allocated, whole) = by_arm.0 h in
            elim allocated [
              | inl (gate, same) ↦ inl (gate, whole ∙ ap (with_provenance E s id) same ∙ apart)
              | inr (gate, (unit, bucket, arm, evaluated, hashed, below, is_arm, same)) ↦ inr (
                gate,
                unit,
                bucket,
                arm,
                evaluated,
                allocation_bucket-IsBucketOf E a.layer unit a.buckets bucket hashed,
                below,
                is_arm,
                whole ∙ ap (with_provenance E s id) same ∙ assigned-shown id a bucket arm,
              )
            ],
        λ h. elim h [
          | inl (gate, same) ↦ by_arm.1 (
            allocation_trace_of E id a none (not_enrolled E a),
            inl (gate, refl),
            same ∙ sym apart,
          )
          | inr (gate, unit, bucket, arm, evaluated, is_bucket, below, is_arm, same) ↦ by_arm.1 (
            assigned_trace E id a bucket arm,
            inr (
              gate,
              (
                unit,
                bucket,
                arm,
                evaluated,
                IsBucketOf-allocation_bucket E a.layer unit a.buckets bucket is_bucket,
                below,
                is_arm,
                refl,
              ),
            ),
            same ∙ sym (assigned-shown id a bucket arm),
          )
        ],
      )
