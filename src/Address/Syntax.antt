-- ===== src/Address/Syntax.antt =====
-- src/address.rs: steps, addresses, their parser with its checks, and the canonical printer. An
-- error is a constructor of `AddressError` for each message of the source; `panic` stands for the
-- `expect` in `last_step`.
use rototo.Base.{
  ℕ, Bool, true, false, not, ◌&&◌, ◌||◌, List, [], ◌∷◌, ◌++◌, Option, none, some, ◌==◌, leb,
  is_empty, all, if◌then◌else◌, Result, ok, err, ◌>>=◌, ◌>>◌, guard, ok_or, Bytes, split_once,
  split, strip_suffix,
}
use rototo.Address.Class.{
  EntityClass, as_str, parse_name, is_singleton, parent, has_document, is_package,
  EntityClass-discrete,
}

pub data StepId : Type 0 where
  empty : StepId
  subtree : Bytes → StepId
  entity : Bytes → StepId

pub record Step : Type 0 where
  pub class : EntityClass
  pub id : StepId

pub record Address : Type 0 where
  pub steps : List Step
  pub pointer : Option Bytes

pub data AddressError : Type 0 where
  -- `Address::parse`
  no_step : AddressError
  missing_binder : Bytes → AddressError
  unknown_class : Bytes → AddressError
  -- `parse_step_id`, `validate_id`
  singleton_id : EntityClass → AddressError
  empty_subtree : EntityClass → AddressError
  empty_id : AddressError
  invalid_id : Bytes → AddressError
  -- `validate_pointer`
  pointer_start : Bytes → AddressError
  pointer_escape : Bytes → AddressError
  -- `Address::validate`
  cannot_start : EntityClass → EntityClass → AddressError
  cannot_nest : EntityClass → AddressError
  wrong_parent : EntityClass → EntityClass → EntityClass → AddressError
  abstract_parent : EntityClass → EntityClass → AddressError
  pointer_target : AddressError
  no_document : EntityClass → AddressError
  -- `Reference::resolve`
  base_not_entity : AddressError
  base_no_document : AddressError
  no_open_slot : AddressError
  panic : AddressError

-- one byte of an id segment
unfoldable pub is_id_byte : ℕ → Bool
is_id_byte c = (leb b'a' c && leb c b'z') || (leb b'0' c && leb c b'9') || c == b'_'

unfoldable pub is_id_segment : Bytes → Bool
is_id_segment segment = not (is_empty segment) && all is_id_byte segment

unfoldable pub is_valid_entity_id : Bytes → Bool
is_valid_entity_id id = not (is_empty id) && all is_id_segment (split b'/' id)

unfoldable pub validate_id : Bytes → Result AddressError (Unit {0})
validate_id id = do
  guard (not (is_empty id)) empty_id
  guard (is_valid_entity_id id) (invalid_id id)

-- `matches!(bytes.peek(), Some(b'0') | Some(b'1'))`
unfoldable pub peeks_escape : Bytes → Bool
peeks_escape [] = false
peeks_escape (c ∷ rest) = c == b'0' || c == b'1'

-- the `while` loop of `validate_pointer`
unfoldable pub check_escapes : Bytes → Bytes → Result AddressError (Unit {0})
check_escapes pointer [] = ok tt
check_escapes pointer (c ∷ rest) =
    if c == b'~' && not (peeks_escape rest)
    then err (pointer_escape pointer)
    else check_escapes pointer rest

unfoldable pub validate_pointer : Bytes → Result AddressError Bytes
validate_pointer [] = ok []
validate_pointer (c ∷ rest) =
    if c == b'/'
    then (do check_escapes (c ∷ rest) (c ∷ rest); ok (c ∷ rest))
    else err (pointer_start (c ∷ rest))

-- the id behind a trailing slash, or the whole id
unfoldable pub id_of_suffix : EntityClass → Bytes → Option Bytes → Result AddressError StepId
id_of_suffix class id (some prefix) = do
  guard (not (is_empty prefix)) (empty_subtree class)
  validate_id prefix
  ok (subtree prefix)
id_of_suffix class id none = do validate_id id; ok (entity id)

unfoldable pub parse_step_id : EntityClass → Bytes → Result AddressError StepId
unfolding id_of_suffix
parse_step_id class [] = ok empty
parse_step_id class (c ∷ rest) = do
  guard (not (is_singleton class)) (singleton_id class)
  id_of_suffix class (c ∷ rest) (strip_suffix (c ∷ rest) (b'/' ∷ []))

-- the body of the loop over `entity_path.split(':')`
unfoldable pub parse_step : Bytes → Result AddressError Step
parse_step segment = do
  cut ← ok_or (split_once b'=' segment) (missing_binder segment)
  class ← ok_or (parse_name cut.0) (unknown_class cut.0)
  id ← parse_step_id class cut.1
  ok (record { class = class; id = id })

unfoldable pub parse_steps : List Bytes → Result AddressError (List Step)
parse_steps [] = ok []
parse_steps (segment ∷ segments) = do
  step ← parse_step segment
  steps ← parse_steps segments
  ok (step ∷ steps)

abbrev pub is_entity_id : StepId → Bool
is_entity_id (entity id) = true
is_entity_id _ = false

-- `previous.class != parent`, by the classes' names
unfoldable pub same_class : EntityClass → EntityClass → Bool
same_class a b = elim (EntityClass-discrete a b) [ yes p ↦ true | no p ↦ false ]

unfoldable pub check_parent : Step → Step → EntityClass → Result AddressError (Unit {0})
check_parent previous step expected = do
  guard (same_class previous.class expected) (wrong_parent step.class expected previous.class)
  guard (is_entity_id previous.id) (abstract_parent previous.class step.class)

-- one round of the loop of `validate`; `none` is index 0
unfoldable pub check_nesting :
    Option Step → Step → Option EntityClass → Result AddressError (Unit {0})
check_nesting none step none = ok tt
check_nesting none step (some expected) = err (cannot_start step.class expected)
check_nesting (some previous) step none = err (cannot_nest step.class)
check_nesting (some previous) step (some expected) = check_parent previous step expected

unfoldable pub validate_steps : Option Step → List Step → Result AddressError (Unit {0})
validate_steps previous [] = ok tt
validate_steps previous (step ∷ steps) = do
  check_nesting previous step (parent step.class)
  validate_steps (some step) steps

unfoldable pub last_of : List Step → Result AddressError Step
last_of [] = err panic
last_of (step ∷ []) = ok step
last_of (step ∷ next ∷ steps) = last_of (next ∷ steps)

unfoldable pub last_step : Address → Result AddressError Step
last_step address = last_of address.steps

unfoldable pub step_is_entity : Step → Bool
step_is_entity last =
    is_entity_id last.id || (is_singleton last.class && not (is_package last.class))

unfoldable pub is_entity : Address → Result AddressError Bool
is_entity address = do last ← last_step address; ok (step_is_entity last)

-- the pointer check at the end of `validate`
unfoldable pub check_pointer_target : Address → Option Bytes → Result AddressError (Unit {0})
check_pointer_target address none = ok tt
check_pointer_target address (some pointer) = do
  last ← last_step address
  concrete ← is_entity address
  guard concrete pointer_target
  guard (has_document last.class) (no_document last.class)

unfoldable pub validate : Address → Result AddressError (Unit {0})
validate address = do
  validate_steps none address.steps
  check_pointer_target address address.pointer

unfoldable pub parse_pointer : Option Bytes → Result AddressError (Option Bytes)
parse_pointer none = ok none
parse_pointer (some pointer) = do checked ← validate_pointer pointer; ok (some checked)

-- `source.split_once('#')`, or the whole source and no pointer
unfoldable pub cut_pointer : Bytes → Bytes × Option Bytes
cut_pointer source = elim (split_once b'#' source) [
  | none ↦ (source, none)
  | some (path, pointer) ↦ (path, some pointer)
]

unfoldable pub parse_parts : Bytes → Option Bytes → Result AddressError Address
parse_parts entity_path pointer = do
  guard (not (is_empty entity_path)) no_step
  steps ← parse_steps (split b':' entity_path)
  checked ← parse_pointer pointer
  validate (record { steps = steps; pointer = checked })
  ok (record { steps = steps; pointer = checked })

unfoldable pub parse : Bytes → Result AddressError Address
parse source = let (entity_path, pointer) = cut_pointer source in parse_parts entity_path pointer

unfoldable pub display_id : StepId → Bytes
display_id empty = []
display_id (subtree prefix) = prefix ++ b'/' ∷ []
display_id (entity id) = id

unfoldable pub display_step : Step → Bytes
display_step step = as_str step.class ++ b'=' ∷ display_id step.id

-- the loop of `fmt`; the flag is `index > 0`
unfoldable pub display_steps : Bool → List Step → Bytes
display_steps later [] = []
display_steps later (step ∷ steps) =
    (if later then b':' ∷ [] else []) ++ (display_step step ++ display_steps true steps)

unfoldable pub display_pointer : Option Bytes → Bytes
display_pointer none = []
display_pointer (some pointer) = b'#' ∷ pointer

unfoldable pub display : Address → Bytes
display address = display_steps false address.steps ++ display_pointer address.pointer
