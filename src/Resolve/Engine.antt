-- ===== src/Resolve/Engine.antt =====
-- What src/resolve.rs takes from other packages: JSON values and their maps (`serde_json`), and the
-- expression engine (`cel`), whose run includes the functions that `register_functions` adds.
use rototo.Base.{Bool, Option, List, Bytes, Result}

-- `Option<std::cmp::Ordering>` of `partial_cmp`
pub data Comparison : Type 0 where
  less same greater : Comparison

pub record Engine : Type 1 where
  -- `serde_json::Value` and `serde_json::Map`
  pub Json : Type 0
  pub Object : Type 0
  pub null : Json
  pub string : Bytes → Json
  pub array : List Json → Json
  pub object : Object → Json
  pub as_bool : Json → Option Bool
  pub as_str : Json → Option Bytes
  pub as_array : Json → Option (List Json)
  pub as_object : Json → Option Object
  pub is_number : Json → Bool
  -- `partial_cmp` of the numbers as `f64`
  pub compare_numbers : Json → Json → Option Comparison
  pub empty : Object
  pub get : Object → Bytes → Option Json
  pub insert : Object → Bytes → Json → Object
  pub entries : Object → List (Bytes × Json)
  pub pointer : Json → Bytes → Option Json
  pub to_text : Json → Bytes
  -- `cel`: a compiled expression, a value, an error of a run
  pub Ast : Type 0
  pub Value : Type 0
  pub Failure : Type 0
  pub to_value : Json → Result Bytes Value
  pub run : Ast → List (Bytes × Value) → Result Failure Value
  pub json : Value → Result Bytes Json
  pub is_no_such_key : Failure → Bool
  pub failure_text : Failure → Bytes
  -- `jsonschema`: a compiled schema, and the error of a value that it refuses
  pub Validator : Type 0
  pub validate : Validator → Json → Result Bytes (Unit {0})
