-- ===== src/Resolve/Shown.antt =====
-- What a trace shows of the values of a package, written out.
use rototo.Base.{Bool, false, List, [], ◌∷◌, Option, Bytes, ◌≡◌, refl, map}
use rototo.Resolve.Engine.{Engine}
use rototo.Resolve.Runtime.{
  VariableResolutionSource, literal_source, catalog_source, catalog_array_source,
  RuntimeSelectedValue, literal, catalog, catalog_array, RuntimeRule, VariableResolutionTrace,
  VariableRuleResolutionTrace, VariableAllocationTrace,
}
use rototo.Resolve.Trace.{value_of, selected_value_source, rule_trace}

module _ (E : Engine) where
  open E use {Json}

  -- the value and the source of a selected value
  abbrev pub shown : RuntimeSelectedValue E → Json × VariableResolutionSource
  shown (literal v) = (v, literal_source)
  shown (catalog c n v) = (v, catalog_source c n)
  shown (catalog_array c ns v) = (v, catalog_array_source c ns)

  abbrev pub shown_rule : Bool → RuntimeRule E → VariableRuleResolutionTrace E
  shown_rule matched rule = record {
    index = rule.index;
    condition = rule.condition.source;
    value = (shown rule.value).0;
    source = (shown rule.value).1;
    matched = matched;
  }

  -- the trace of a variable with a default and a selected value
  abbrev pub shown_trace :
      Bytes
      → RuntimeSelectedValue E
      → RuntimeSelectedValue E
      → List (VariableRuleResolutionTrace E)
      → Option (VariableAllocationTrace E)
      → Option Bytes
      → VariableResolutionTrace E
  shown_trace id default selected rules allocation provenance = record {
    resolution = record { id = id; value = (shown selected).0; source = (shown selected).1 };
    default_value = (shown default).0;
    default_source = (shown default).1;
    rules = rules;
    provenance = provenance;
    allocation = allocation;
  }

  value_of-shown : (v : RuntimeSelectedValue E) → value_of E v ≡ (shown v).0
  value_of-shown (literal v) = refl
  value_of-shown (catalog c n v) = refl
  value_of-shown (catalog_array c ns v) = refl

  source-shown : (v : RuntimeSelectedValue E) → selected_value_source E v ≡ (shown v).1
  source-shown (literal v) = refl
  source-shown (catalog c n v) = refl
  source-shown (catalog_array c ns v) = refl

  pub rule_trace-shown :
      (matched : Bool) (rule : RuntimeRule E) → rule_trace E rule matched ≡ shown_rule matched rule
  rule_trace-shown matched rule i = record {
    index = rule.index;
    condition = rule.condition.source;
    value = value_of-shown rule.value i;
    source = source-shown rule.value i;
    matched = matched;
  }

  pub rule_traces-shown :
      (rules : List (RuntimeRule E))
      → map (λ rule. rule_trace E rule false) rules ≡ map (shown_rule false) rules
  rule_traces-shown [] = refl
  rule_traces-shown (rule ∷ rules) = λ i. rule_trace-shown false rule i ∷ rule_traces-shown rules i

  pub shown_trace_lem :
      (id : Bytes) (default selected : RuntimeSelectedValue E)
      (rules : List (VariableRuleResolutionTrace E))
      (allocation : Option (VariableAllocationTrace E)) (provenance : Option Bytes)
      → Path
          (VariableResolutionTrace E)
          (record {
            resolution = record {
              id = id;
              value = value_of E selected;
              source = selected_value_source E selected;
            };
            default_value = value_of E default;
            default_source = selected_value_source E default;
            rules = rules;
            provenance = provenance;
            allocation = allocation;
          })
          (shown_trace id default selected rules allocation provenance)
  shown_trace_lem id default selected rules allocation provenance i = record {
    resolution = record {
      id = id;
      value = value_of-shown selected i;
      source = source-shown selected i;
    };
    default_value = value_of-shown default i;
    default_source = source-shown default i;
    rules = rules;
    provenance = provenance;
    allocation = allocation;
  }
