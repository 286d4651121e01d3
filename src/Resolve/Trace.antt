-- ===== src/Resolve/Trace.antt =====
-- src/resolve.rs: `resolve_rules_trace` and `resolve_allocation_trace`.
use rototo.Base.{
  ℕ, Bool, true, false, ◌&&◌, List, [], ◌∷◌, Option, none, some, Bytes, leb, if◌then◌else◌,
}
use rototo.Resolve.Engine.{Engine}
use rototo.Resolve.Runtime.{
  VariableResolutionSource, literal_source, catalog_source, catalog_array_source,
  RuntimeSelectedValue, literal, catalog, catalog_array, Expression, RuntimeRule, RuntimeArm,
  RuntimeAllocation, VariableResolution, VariableResolutionTrace, VariableRuleResolutionTrace,
  VariableAllocationTrace,
}
use rototo.Resolve.Ask.{Ask, give, ◌>>=◌, give_result}
use rototo.Resolve.Hash.{allocation_bucket}
use rototo.Resolve.Evaluate.{Session, evaluate_bool, evaluate_value}

module _ (E : Engine) where
  open E use {Json}

  abbrev pub value_of : RuntimeSelectedValue E → Json
  value_of (literal v) = v
  value_of (catalog c n v) = v
  value_of (catalog_array c ns v) = v

  abbrev pub selected_value_source : RuntimeSelectedValue E → VariableResolutionSource
  selected_value_source (literal v) = literal_source
  selected_value_source (catalog c n v) = catalog_source c n
  selected_value_source (catalog_array c ns v) = catalog_array_source c ns

  abbrev pub resolution_of : Bytes → RuntimeSelectedValue E → VariableResolution E
  resolution_of id selected = record {
    id = id;
    value = value_of selected;
    source = selected_value_source selected;
  }

  abbrev pub unwrap_or :
      Option (RuntimeSelectedValue E) → RuntimeSelectedValue E → RuntimeSelectedValue E
  unwrap_or none default = default
  unwrap_or (some v) default = v

  abbrev pub evaluate_rule_condition : Session E → RuntimeRule E → Ask Json Bool
  evaluate_rule_condition s rule = evaluate_bool E s rule.condition none

  abbrev pub rule_trace : RuntimeRule E → Bool → VariableRuleResolutionTrace E
  rule_trace rule matched = record {
    index = rule.index;
    condition = rule.condition.source;
    value = value_of rule.value;
    source = selected_value_source rule.value;
    matched = matched;
  }

  abbrev pub RuleTraces : Type 0
  RuleTraces = List (VariableRuleResolutionTrace E)

  abbrev pub Selection : Type 0
  Selection = Option (RuntimeSelectedValue E) × RuleTraces

  abbrev pub behind : RuntimeRule E → Selection → Selection
  behind rule (selected, traces) = (selected, rule_trace rule false ∷ traces)

  -- A match breaks the loop; without one, the rest of it runs.
  abbrev pub next_rule : RuntimeRule E → Ask Json Selection → Bool → Ask Json Selection
  next_rule rule rest true = give (some rule.value, rule_trace rule true ∷ [])
  next_rule rule rest false = do selection ← rest; give (behind rule selection)

  unfoldable pub select_rule : Session E → List (RuntimeRule E) → Ask Json Selection
  select_rule s [] = give (none, [])
  select_rule s (rule ∷ rules) = do
    matched ← evaluate_rule_condition s rule
    next_rule rule (select_rule s rules) matched

  abbrev pub rules_trace_of : Bytes → RuntimeSelectedValue E → Selection → VariableResolutionTrace E
  rules_trace_of id default (selected, traces) = record {
    resolution = resolution_of id (unwrap_or selected default);
    default_value = value_of default;
    default_source = selected_value_source default;
    rules = traces;
    provenance = none;
    allocation = none;
  }

  unfoldable pub resolve_rules_trace :
      Session E
      → Bytes
      → RuntimeSelectedValue E
      → List (RuntimeRule E)
      → Ask Json (VariableResolutionTrace E)
  resolve_rules_trace s id default rules = do
    outcome ← select_rule s rules
    give (rules_trace_of id default outcome)

  abbrev pub evaluate_allocation_eligibility : Session E → Option (Expression E) → Ask Json Bool
  evaluate_allocation_eligibility s none = give true
  evaluate_allocation_eligibility s (some eligibility) = evaluate_bool E s eligibility none

  abbrev pub claims : RuntimeArm E → ℕ → Bool
  claims arm bucket = leb arm.start bucket && leb bucket arm.end

  -- The loop over the arms, which breaks at the first that claims the bucket.
  unfoldable pub find_arm : List (RuntimeArm E) → ℕ → Option (RuntimeArm E)
  find_arm [] bucket = none
  find_arm (arm ∷ arms) bucket = if claims arm bucket then some arm else find_arm arms bucket

  abbrev pub not_enrolled : RuntimeAllocation E → VariableAllocationTrace E
  not_enrolled allocation = record {
    layer = allocation.layer;
    allocation = allocation.allocation;
    enrolled = false;
    bucket = none;
    arm = none;
  }

  abbrev pub enrolled_in :
      RuntimeAllocation E → ℕ → Option (RuntimeArm E) → VariableAllocationTrace E
  enrolled_in allocation bucket arm = record {
    layer = allocation.layer;
    allocation = allocation.allocation;
    enrolled = true;
    bucket = some bucket;
    arm = elim arm [ none ↦ none | some a ↦ some a.name ];
  }

  abbrev pub allocation_trace_of :
      Bytes
      → RuntimeAllocation E
      → Option (RuntimeSelectedValue E)
      → VariableAllocationTrace E
      → VariableResolutionTrace E
  allocation_trace_of id allocation selected trace = record {
    resolution = resolution_of id (unwrap_or selected allocation.default);
    default_value = value_of allocation.default;
    default_source = selected_value_source allocation.default;
    rules = [];
    provenance = none;
    allocation = some trace;
  }

  abbrev pub arm_value : Option (RuntimeArm E) → Option (RuntimeSelectedValue E)
  arm_value none = none
  arm_value (some arm) = some arm.value

  abbrev pub assigned_trace :
      Bytes → RuntimeAllocation E → ℕ → Option (RuntimeArm E) → VariableResolutionTrace E
  assigned_trace id allocation bucket arm =
      allocation_trace_of id allocation (arm_value arm) (enrolled_in allocation bucket arm)

  unfoldable pub assign_arm :
      Session E → Bytes → RuntimeAllocation E → Ask Json (VariableResolutionTrace E)
  assign_arm s id allocation = do
    unit ← evaluate_value E s allocation.unit none
    bucket ← give_result (allocation_bucket E allocation.layer unit allocation.buckets)
    give (assigned_trace id allocation bucket (find_arm allocation.arms bucket))

  -- `allocation.running && evaluate_allocation_eligibility(..)?`: the test runs only when running.
  abbrev pub is_enrolled : Session E → Bool → Option (Expression E) → Ask Json Bool
  is_enrolled s false eligibility = give false
  is_enrolled s true eligibility = evaluate_allocation_eligibility s eligibility

  abbrev pub assign_if :
      Session E → Bytes → RuntimeAllocation E → Bool → Ask Json (VariableResolutionTrace E)
  assign_if s id allocation false =
      give (allocation_trace_of id allocation none (not_enrolled allocation))
  assign_if s id allocation true = assign_arm s id allocation

  unfoldable pub resolve_allocation_trace :
      Session E → Bytes → RuntimeAllocation E → Ask Json (VariableResolutionTrace E)
  resolve_allocation_trace s id allocation = do
    enrolled ← is_enrolled s allocation.running allocation.eligibility
    assign_if s id allocation enrolled
