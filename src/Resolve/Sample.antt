-- ===== src/Resolve/Sample.antt =====
-- A small engine, whose compiled expressions are functions of the bindings, and a package for the tests.
use rototo.Base.{
  ℕ, Bool, true, false, List, [], ◌∷◌, Option, none, some, Bytes, codes, Result, ok, err, lookup,
  text_eq, if◌then◌else◌,
}
use rototo.Resolve.Engine.{Engine}
use rototo.Resolve.Runtime.{
  Expression, RuntimeRule, RuntimeArm, RuntimeAllocation, RuntimePackage, RuntimeResolution,
  RuntimeQuery, query_resolution, rules_resolution, allocation_resolution, literal, literal_source,
  VariableResolution,
}
use rototo.Resolve.Evaluate.{Session}
use rototo.Resolve.State.{new}

pub data Json : Type 0 where
  nothing : Json
  flag : Bool → Json
  text : Bytes → Json
  -- an object or an array: its items in order
  nil : Json
  item : Bytes → Json → Json → Json

abbrev pub bool_of : Json → Option Bool
bool_of (flag b) = some b
bool_of _ = none

abbrev pub text_of : Json → Option Bytes
text_of (text t) = some t
text_of _ = none

abbrev pub values_of : Json → List Json
values_of (item k v rest) = v ∷ values_of rest
values_of _ = []

abbrev pub items_of : Json → List (Bytes × Json)
items_of (item k v rest) = (k, v) ∷ items_of rest
items_of _ = []

abbrev pub array_of : List Json → Json
array_of [] = nil
array_of (v ∷ vs) = item [] v (array_of vs)

abbrev pub list_of : Json → Option (List Json)
list_of nil = some []
list_of (item k v rest) = some (values_of (item k v rest))
list_of _ = none

abbrev pub object_of : Json → Option Json
object_of nil = some nil
object_of (item k v rest) = some (item k v rest)
object_of _ = none

abbrev pub get_item : Json → Bytes → Option Json
get_item (item k v rest) key = if text_eq k key then some v else get_item rest key
get_item _ key = none

abbrev pub set_item : Json → Bytes → Json → Json
set_item (item k v rest) key new =
    let others = set_item rest key new in if text_eq k key then item k new rest else item k v others
set_item _ key new = item key new nil

abbrev pub engine : Engine
engine = record {
  Json = Json;
  Object = Json;
  null = nothing;
  string = text;
  array = array_of;
  object = λ o. o;
  as_bool = bool_of;
  as_str = text_of;
  as_array = list_of;
  as_object = object_of;
  is_number = λ v. false;
  compare_numbers = λ a b. none;
  empty = nil;
  get = get_item;
  insert = set_item;
  entries = items_of;
  pointer = λ v p. none;
  to_text = λ v. [];
  Ast = List (Bytes × Json) → Result Bytes Json;
  Value = Json;
  Failure = Bytes;
  to_value = ok;
  run = λ f bindings. f bindings;
  json = ok;
  is_no_such_key = λ e. true;
  failure_text = λ e. e;
  Validator = Json → Result Bytes (Unit {0});
  validate = λ f value. f value;
}

abbrev pub constant : Json → Expression engine
constant value = record {
  source = [];
  references = record { context_paths = []; variables = []; lists = [] };
  cel_ast = λ bindings. ok value;
}

abbrev pub equals_text : Option Json → Bytes → Result Bytes Json
equals_text (some (text t)) wanted = ok (flag (text_eq t wanted))
equals_text _ wanted = err (codes "no such key")

abbrev pub variable_of : Bytes → List (Bytes × Json) → Option Json
variable_of id bindings = elim (lookup bindings (codes "variables")) [
  | none ↦ none
  | some o ↦ get_item o id
]

-- `variables.<id> == "<wanted>"`
abbrev pub variable_is : Bytes → Bytes → Expression engine
variable_is id wanted = record {
  source = id;
  references = record { context_paths = []; variables = id ∷ []; lists = [] };
  cel_ast = λ bindings. equals_text (variable_of id bindings) wanted;
}

abbrev pub rule : Expression engine → Bytes → RuntimeRule engine
rule condition value = record { index = 0; condition = condition; value = literal (text value) }

abbrev pub plan : RuntimeResolution engine
plan =
    rules_resolution (literal (text (codes "free")))
      (rule (constant (flag true)) (codes "pro") ∷ [])

abbrev pub discount_rules : List (RuntimeRule engine)
discount_rules =
    rule (variable_is (codes "plan") (codes "free")) (codes "none")
    ∷ rule (variable_is (codes "plan") (codes "pro")) (codes "ten")
    ∷ []

abbrev pub discount : RuntimeResolution engine
discount = rules_resolution (literal (text (codes "unknown"))) discount_rules

abbrev pub loop : RuntimeResolution engine
loop =
    rules_resolution (literal (text (codes "end")))
      (rule (variable_is (codes "loop") (codes "end")) (codes "again") ∷ [])

abbrev pub arm : Bytes → ℕ → ℕ → RuntimeArm engine
arm name start end = record { name = name; start = start; end = end; value = literal (text name) }

abbrev pub allocation : RuntimeAllocation engine
allocation = record {
  layer = codes "known-salt";
  allocation = codes "test";
  unit = constant (text (codes "user-123"));
  buckets = 10000;
  running = true;
  eligibility = some (constant (flag true));
  arms = arm (codes "a") 0 9912 ∷ arm (codes "b") 9913 9913 ∷ arm (codes "c") 9900 9999 ∷ [];
  default = literal (text (codes "control"));
}

abbrev pub entry_field : Bytes → List (Bytes × Json) → Option Json
entry_field key bindings = elim (lookup bindings (codes "entry")) [
  | none ↦ none
  | some o ↦ get_item o key
]

abbrev pub or_nothing : Option Json → Json
or_nothing none = nothing
or_nothing (some v) = v

-- `entry.on`
abbrev pub is_on : Expression engine
is_on = record {
  source = codes "entry.on";
  references = record { context_paths = []; variables = []; lists = [] };
  cel_ast = λ bindings. ok (or_nothing (entry_field (codes "on") bindings));
}

abbrev pub banner_entries : List (Bytes × Json)
banner_entries =
    (codes "a", item (codes "on") (flag false) nil)
    ∷ (codes "b", item (codes "on") (flag true) nil)
    ∷ (codes "c", item (codes "on") (flag true) nil)
    ∷ []

abbrev pub banner : RuntimeQuery engine
banner = record {
  catalog_id = codes "banners";
  single = false;
  filter = some is_on;
  sort = none;
  descending = false;
  limit = some 1;
  default = none;
}

abbrev pub refuse : Json → Result Bytes (Unit {0})
refuse value = err (codes "refused")

abbrev pub accept : Json → Result Bytes (Unit {0})
accept value = ok tt

abbrev pub sample : RuntimePackage engine
sample = record {
  evaluation_contexts =
      (codes "mobile", record { schema = nil; validator = refuse })
      ∷ (codes "web", record { schema = nil; validator = accept })
      ∷ [];
  variable_evaluation_contexts =
      (codes "discount", codes "mobile" ∷ codes "web" ∷ [])
      ∷ (codes "plan", codes "mobile" ∷ [])
      ∷ [];
  context_dependent_variables = codes "discount" ∷ codes "plan" ∷ [];
  catalog_schemas =
      (codes "banners", item (codes "properties") (item (codes "on") nil nil) nil) ∷ [];
  catalog_entries = (codes "banners", banner_entries) ∷ [];
  lists = [];
  variables =
      (codes "banner", query_resolution banner)
      ∷ (codes "discount", discount)
      ∷ (codes "loop", loop)
      ∷ (codes "plan", plan)
      ∷ (codes "test", allocation_resolution allocation)
      ∷ [];
  trace_policies = [];
  resolve_provenance = (codes "plan", codes "base") ∷ [];
}

abbrev pub session : Session engine
session = record { runtime = sample; context = nil; now = codes "2026-01-01T00:00:00Z"; depth = 8 }

abbrev pub resolved : Bytes → Bytes → VariableResolution engine
resolved id value = record { id = id; value = text value; source = literal_source }
