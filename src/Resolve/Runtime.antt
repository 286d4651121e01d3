-- ===== src/Resolve/Runtime.antt =====
-- The compiled package of src/lint/runtime.rs, the parts of src/expression/mod.rs and src/model.rs that
-- resolution uses, and the errors, a constructor for each message.
use rototo.Base.{ℕ, Bool, Option, List, Bytes, Map}
use rototo.Resolve.Engine.{Engine}

pub data RototoError : Type 0 where
  variable_not_found reference_cycle unknown_list : Bytes → RototoError
  not_representable not_json evaluation_failed : Bytes → RototoError
  missing_paths : List Bytes → RototoError
  not_bool policy_not_bool : Bytes → RototoError
  no_entries no_match : Bytes → RototoError
  not_comparable : Bytes → Bytes → Bytes → RototoError
  many_matches : ℕ → Bytes → RototoError
  incompatible_context : List (Bytes × Bytes) → RototoError
  no_candidate_context : RototoError
  -- the two ways in which the process ends
  panicked stack_overflow : RototoError

pub data VariableResolutionSource : Type 0 where
  literal_source : VariableResolutionSource
  catalog_source : Bytes → Bytes → VariableResolutionSource
  catalog_array_source : Bytes → List Bytes → VariableResolutionSource

module _ (E : Engine) where
  open E use {Json, Ast, Validator}

  -- the sets that evaluation reads, in order
  pub record ExpressionReferences : Type 0 where
    pub context_paths : List Bytes
    pub variables : List Bytes
    pub lists : List Bytes

  pub record Expression : Type 0 where
    pub source : Bytes
    pub references : ExpressionReferences
    pub cel_ast : Ast

  pub data RuntimeSelectedValue : Type 0 where
    literal : Json → RuntimeSelectedValue
    catalog : Bytes → Bytes → Json → RuntimeSelectedValue
    catalog_array : Bytes → List Bytes → Json → RuntimeSelectedValue

  pub record RuntimeRule : Type 0 where
    pub index : ℕ
    pub condition : Expression
    pub value : RuntimeSelectedValue

  pub record RuntimeArm : Type 0 where
    pub name : Bytes
    pub start : ℕ
    pub end : ℕ
    pub value : RuntimeSelectedValue

  pub record RuntimeAllocation : Type 0 where
    pub layer : Bytes
    pub allocation : Bytes
    pub unit : Expression
    pub buckets : ℕ
    pub running : Bool
    pub eligibility : Option Expression
    pub arms : List RuntimeArm
    pub default : RuntimeSelectedValue

  pub record RuntimeQuery : Type 0 where
    pub catalog_id : Bytes
    pub single : Bool
    pub filter : Option Expression
    pub sort : Option Expression
    pub descending : Bool
    pub limit : Option ℕ
    pub default : Option RuntimeSelectedValue

  pub data RuntimeResolution : Type 0 where
    rules_resolution : RuntimeSelectedValue → List RuntimeRule → RuntimeResolution
    query_resolution : RuntimeQuery → RuntimeResolution
    allocation_resolution : RuntimeAllocation → RuntimeResolution

  pub record RuntimeEvaluationContext : Type 0 where
    pub schema : Json
    pub validator : Validator

  pub record RuntimeList : Type 0 where
    pub description : Option Bytes
    pub member_type : Bytes
    pub members : List Json

  pub record RuntimeTracePolicy : Type 0 where
    pub condition : Expression

  pub record RuntimePackage : Type 0 where
    pub evaluation_contexts : Map RuntimeEvaluationContext
    pub variable_evaluation_contexts : Map (List Bytes)
    pub context_dependent_variables : List Bytes
    pub catalog_schemas : Map Json
    pub catalog_entries : Map (Map Json)
    pub lists : Map RuntimeList
    pub variables : Map RuntimeResolution
    pub trace_policies : List RuntimeTracePolicy
    pub resolve_provenance : Map Bytes

  pub record VariableResolution : Type 0 where
    pub id : Bytes
    pub value : Json
    pub source : VariableResolutionSource

  pub record VariableAllocationTrace : Type 0 where
    pub layer : Bytes
    pub allocation : Bytes
    pub enrolled : Bool
    pub bucket : Option ℕ
    pub arm : Option Bytes

  pub record VariableRuleResolutionTrace : Type 0 where
    pub index : ℕ
    pub condition : Bytes
    pub value : Json
    pub source : VariableResolutionSource
    pub matched : Bool

  pub record VariableResolutionTrace : Type 0 where
    pub resolution : VariableResolution
    pub default_value : Json
    pub default_source : VariableResolutionSource
    pub rules : List VariableRuleResolutionTrace
    pub provenance : Option Bytes
    pub allocation : Option VariableAllocationTrace

  pub record VariableTraceCapture : Type 0 where
    pub trace : VariableResolutionTrace
    pub policies : List ℕ
