-- ===== src/Resolve/Evaluate.antt =====
-- `cel_evaluate` of src/expression/eval.rs and the methods of `Expression` of src/expression/mod.rs. What
-- the resolution does not change is a `Session`.
use rototo.Base.{
  ℕ, Bool, true, false, List, [], ◌∷◌, Option, none, some, Bytes, codes, split, Result, ok, err,
  if◌then◌else◌, is_empty, Map, lookup, ok_or,
}
use rototo.Resolve.Engine.{Engine}
use rototo.Resolve.Runtime.{
  RototoError, not_representable, not_json, evaluation_failed, missing_paths, not_bool,
  policy_not_bool, unknown_list, ExpressionReferences, Expression, RuntimePackage,
}
use rototo.Resolve.Ask.{Ask, give, ask, ◌>>=◌, give_result, for_each}

abbrev filter : (Bytes → Bool) → List Bytes → List Bytes
filter p [] = []
filter p (x ∷ xs) = let rest = filter p xs in if p x then x ∷ rest else rest

module _ (E : Engine) where
  open E use {
    Json, Object, null, string, array, object, as_bool, as_object, empty, get, insert, Value,
    Failure, to_value, run, json, is_no_such_key, failure_text,
  }

  pub record Session : Type 0 where
    pub runtime : RuntimePackage E
    pub context : Json
    pub now : Bytes
    -- the depth of the stack of the thread, for hydration
    pub depth : ℕ

  -- `Value::get` with a key
  abbrev pub get_key : Json → Bytes → Option Json
  get_key value key = elim (as_object value) [ none ↦ none | some o ↦ get o key ]

  missing_segment : Json → List Bytes → Bool
  missing_segment current [] = false
  missing_segment current (segment ∷ segments) = elim (get_key current segment) [
    | none ↦ true
    | some next ↦ missing_segment next segments
  ]

  unfoldable pub context_path_missing : Json → Bytes → Bool
  unfolding missing_segment
  context_path_missing context path = missing_segment context (split b'.' path)

  unfoldable pub evaluation_failure : Failure → ExpressionReferences E → Json → RototoError
  evaluation_failure failure references context =
      let missing = filter (context_path_missing context) references.context_paths in
      if is_no_such_key failure
      then if is_empty missing
        then evaluation_failed (failure_text failure)
        else missing_paths missing
      else evaluation_failed (failure_text failure)

  unfoldable pub to_cel : Json → Result RototoError Value
  to_cel value = elim (to_value value) [ ok v ↦ ok v | err e ↦ err (not_representable e) ]

  -- `target.to_env_value()` of a variable
  abbrev pub to_env_value : Bytes → Json
  to_env_value id = object (insert empty (codes "variable") (string id))

  unfoldable pub env_value : Bytes → Option Bytes → Json
  env_value now resolving =
      let env = insert empty (codes "now") (string now) in
      elim resolving [
        | none ↦ object env
        | some id ↦ object (insert env (codes "resolving") (to_env_value id))
      ]

  abbrev insert_all : Object → Map Json → Object
  insert_all o [] = o
  insert_all o ((k, v) ∷ items) = insert_all (insert o k v) items

  abbrev pub object_of : Map Json → Json
  object_of items = object (insert_all empty items)

  unfoldable pub list_members : RuntimePackage E → Bytes → Result RototoError Json
  list_members runtime id = elim (lookup runtime.lists id) [
    | none ↦ err (unknown_list id)
    | some declared ↦ ok (array declared.members)
  ]

  unfoldable pub run_cel : Expression E → Json → Map Value → Result RototoError Json
  run_cel expression context bindings = elim (run expression.cel_ast bindings) [
    | err failure ↦ err (evaluation_failure failure expression.references context)
    | ok value ↦ elim (json value) [ ok j ↦ ok j | err e ↦ err (not_json e) ]
  ]

  -- one entry of `variables`: the resolver is asked for the value
  abbrev pub variable_item : Bytes → Ask Json (Bytes × Json)
  variable_item id = ask id (λ value. give (id, value))

  abbrev pub list_item : Session → Bytes → Ask Json (Bytes × Json)
  list_item s id = give_result (list_members s.runtime id) >>= λ members. give (id, members)

  unfoldable pub cel_evaluate : Session → Expression E → Option Json → Option Bytes → Ask Json Json
  cel_evaluate s expression entry resolving = do
    context ← give_result (to_cel s.context)
    entry ← give_result (to_cel (elim entry [ none ↦ null | some e ↦ e ]))
    env ← give_result (to_cel (env_value s.now resolving))
    variable_items ← for_each variable_item expression.references.variables
    variables ← give_result (to_cel (object_of variable_items))
    list_items ← for_each (list_item s) expression.references.lists
    lists ← give_result (to_cel (object_of list_items))
    give_result (
        run_cel expression s.context (
          (codes "context", context)
          ∷ (codes "entry", entry)
          ∷ (codes "env", env)
          ∷ (codes "variables", variables)
          ∷ (codes "lists", lists)
          ∷ []))

  abbrev pub evaluate_value : Session → Expression E → Option Json → Ask Json Json
  evaluate_value s expression entry = cel_evaluate s expression entry none

  unfoldable pub evaluate_bool : Session → Expression E → Option Json → Ask Json Bool
  evaluate_bool s expression entry = do
    value ← evaluate_value s expression entry
    give_result (ok_or (as_bool value) (not_bool expression.source))

  unfoldable pub evaluate_bool_traced : Session → Expression E → Bytes → Ask Json Bool
  evaluate_bool_traced s expression resolving = do
    value ← cel_evaluate s expression none (some resolving)
    give_result (ok_or (as_bool value) (policy_not_bool expression.source))
