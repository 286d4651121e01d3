-- ===== src/Governance/Parse.antt =====
-- src/source/governance.rs: how a contract is read from `governance.toml`.
use rototo.Base.{
  Bool, List, [], ◌∷◌, Option, none, some, if◌then◌else◌, Bytes, codes, text_eq, ok, err, ◌&&◌,
  ◌||◌, text_less,
}
use rototo.Toml.{
  Toml, Value, Values, Table, end_array, element, end_table, pair, as_table, as_array, as_string,
  get, get_in,
}
use rototo.Governance.Contract.{
  Operation, add, update, delete, Patterns, Policy, Gate, Blocks, GovernanceContract,
}

unfoldable pub operation_name : Operation → Bytes
operation_name add = codes "add"
operation_name update = codes "update"
operation_name delete = codes "delete"

unfoldable pub parse_operation : Bytes → Option Operation
parse_operation name =
    if text_eq name (codes "add")
    then some add
    else if text_eq name (codes "update")
    then some update
    else if text_eq name (codes "delete")
    then some delete
    else none

-- `filter_map(|name| Operation::parse(name))`
unfoldable pub known_operations : List Bytes → List Operation
known_operations [] = []
known_operations (name ∷ names) = elim (parse_operation name) [
  | none ↦ known_operations names
  | some operation ↦ operation ∷ known_operations names
]

-- the order of the pairs of a kind and an id
unfoldable pub before_block : Bytes → Bytes → Bytes → Bytes → Bool
before_block kind id k i = text_less kind k || (text_eq kind k && text_less id i)

-- `contract.blocks.insert((kind, id), gate)`
unfoldable pub insert_block : Blocks → Bytes → Bytes → Gate → Blocks
insert_block [] kind id gate = (kind, id, gate) ∷ []
insert_block ((k, i, g) ∷ blocks) kind id gate =
    let rest = insert_block blocks kind id gate in
    if text_eq k kind && text_eq i id
    then (kind, id, gate) ∷ blocks
    else if before_block kind id k i
    then (kind, id, gate) ∷ (k, i, g) ∷ blocks
    else (k, i, g) ∷ rest

abbrev pub empty_contract : GovernanceContract
empty_contract = record { blocks = []; defaults = none }

module _ {S : Type 0} where
  -- the items of an array that are strings
  unfoldable pub strings : Values S → List Bytes
  strings end_array = []
  strings (element item items) = elim (as_string item) [
    | none ↦ strings items
    | some text ↦ text ∷ strings items
  ]

  unfoldable pub string_list : Option (Value S) → Patterns
  string_list none = none
  string_list (some value) = elim (as_array value) [
    | none ↦ none
    | some items ↦ some (strings items)
  ]

  unfoldable pub operations : Option (Value S) → List Operation
  operations value = elim (string_list value) [ none ↦ [] | some names ↦ known_operations names ]

  unfoldable pub parse_policy : Value S → Policy
  parse_policy value = record {
    allowed_entries = string_list (get_in value (codes "allowed_entries"));
    denied_entries = string_list (get_in value (codes "denied_entries"));
    allowed_fields = string_list (get_in value (codes "allowed_fields"));
    denied_fields = string_list (get_in value (codes "denied_fields"));
  }

  -- `.map(parse_policy)`
  abbrev pub policy_at : Option (Value S) → Option Policy
  policy_at none = none
  policy_at (some value) = some (parse_policy value)

  unfoldable pub parse_gate : Table S → Gate
  parse_gate block = record {
    allowed = operations (get block (codes "allowed_operations"));
    denied = operations (get block (codes "denied_operations"));
    update_policy = policy_at (get block (codes "update_policy"));
    delete_policy = policy_at (get block (codes "delete_policy"));
  }

  -- the loop over the blocks of a kind
  unfoldable pub parse_blocks : Bytes → Table S → Blocks → Blocks
  parse_blocks kind end_table blocks = blocks
  parse_blocks kind (pair id value fields) blocks =
      parse_blocks kind fields (elim (as_table value) [
        | none ↦ blocks
        | some block ↦ insert_block blocks kind id (parse_gate block)
      ])

  -- the loop over the kinds
  unfoldable pub parse_kinds : Table S → GovernanceContract → GovernanceContract
  parse_kinds end_table contract = contract
  parse_kinds (pair kind value fields) contract = parse_kinds fields (elim (as_table value) [
    | none ↦ contract
    | some blocks ↦
        if text_eq kind (codes "defaults")
        then record contract { defaults = some (parse_gate blocks) }
        else record contract { blocks = parse_blocks kind blocks contract.blocks }
  ])

  unfoldable pub parse_contract : Value S → GovernanceContract
  parse_contract value = elim (as_table value) [
    | none ↦ empty_contract
    | some root ↦ parse_kinds root empty_contract
  ]

-- `read_governance_contract`, of the text of the projection's `governance.toml`
unfoldable pub read_governance_contract : (T : Toml) → Option Bytes → GovernanceContract
read_governance_contract T none = empty_contract
read_governance_contract T (some text) = elim (T.parse text) [
  | err message ↦ empty_contract
  | ok value ↦ parse_contract value
]
