-- ===== src/Address/Reference.antt =====
-- src/address.rs, `Reference`: address strings that may be relative, and `AddressDepth`.
use rototo.Base.{
  Bool, true, false, not, ◌||◌, List, [], ◌∷◌, Option, none, some, if◌then◌else◌, Result, ok, ◌>>=◌,
  ◌>>◌, guard, Bytes, strip_prefix, contains_byte,
}
use rototo.Address.Class.{EntityClass, is_singleton, has_document, is_package}
use rototo.Address.Syntax.{
  StepId, empty, subtree, entity, Step, Address, AddressError, base_not_entity, base_no_document,
  no_open_slot, validate_id, validate_pointer, parse_pointer, cut_pointer, last_step, is_entity,
  validate, parse,
}

pub data Reference : Type 0 where
  absolute : Address → Reference
  fragment_only : Bytes → Reference
  bare_id : Bytes → Option Bytes → Reference

-- `Reference::parse` behind the test for a leading `#`
unfoldable pub parse_marked : Bytes → Bytes × Option Bytes → Result AddressError Reference
parse_marked source (entity_part, pointer) =
    if contains_byte b'=' entity_part || contains_byte b':' entity_part
    then (do address ← parse source; ok (absolute address))
    else (do
      validate_id entity_part
      checked ← parse_pointer pointer
      ok (bare_id entity_part checked))

unfoldable pub parse_reference : Bytes → Result AddressError Reference
parse_reference source = elim (strip_prefix source (b'#' ∷ [])) [
  | some pointer ↦ do checked ← validate_pointer pointer; ok (fragment_only checked)
  | none ↦ parse_marked source (cut_pointer source)
]

abbrev pub is_open_slot : StepId → Bool
is_open_slot empty = true
is_open_slot _ = false

-- `steps.last_mut()` with its id set
unfoldable pub fill_last : List Step → Bytes → List Step
fill_last [] id = []
fill_last (step ∷ []) id = record step { id = entity id } ∷ []
fill_last (step ∷ next ∷ steps) id = step ∷ fill_last (next ∷ steps) id

unfoldable pub resolve : Reference → Address → Result AddressError Address
resolve (absolute address) base = ok address
resolve (fragment_only pointer) base = do
  concrete ← is_entity base
  guard concrete base_not_entity
  last ← last_step base
  guard (has_document last.class) base_no_document
  ok (record { steps = base.steps; pointer = some pointer })
resolve (bare_id id pointer) base = do
  last ← last_step base
  guard (not (is_singleton last.class || not (is_open_slot last.id))) no_open_slot
  validate (record { steps = fill_last base.steps id; pointer = pointer })
  ok (record { steps = fill_last base.steps id; pointer = pointer })

pub data AddressDepth : Type 0 where
  whole_package collective subtree_depth entity_depth : AddressDepth

depth_of : StepId → EntityClass → AddressDepth
depth_of empty class =
    if is_package class
    then whole_package
    else if is_singleton class
    then entity_depth
    else collective
depth_of (subtree prefix) class = subtree_depth
depth_of (entity id) class = entity_depth

unfoldable pub depth : Address → Result AddressError AddressDepth
unfolding depth_of
depth address = do last ← last_step address; ok (depth_of last.id last.class)
