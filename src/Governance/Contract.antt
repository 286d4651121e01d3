-- ===== src/Governance/Contract.antt =====
-- src/source/governance.rs: contracts, `operation_allowed`, `check` and `check_ceiling`. The map of
-- blocks is the list of its items in key order. An error is a constructor for each message.
use rototo.Base.{
  Bool, true, false, not, ◌&&◌, ◌||◌, List, [], ◌∷◌, Option, none, some, if◌then◌else◌, any,
  is_empty, Result, ok, ◌>>◌, guard, Bytes, text_eq, contains_byte,
}
use rototo.Governance.Glob.{glob_match}

pub data Operation : Type 0 where
  add update delete : Operation

-- the derived `PartialEq`
unfoldable pub same_operation : Operation → Operation → Bool
same_operation add add = true
same_operation update update = true
same_operation delete delete = true
same_operation _ _ = false

abbrev pub Patterns : Type 0
Patterns = Option (List Bytes)

pub record Policy : Type 0 where
  pub allowed_entries : Patterns
  pub denied_entries : Patterns
  pub allowed_fields : Patterns
  pub denied_fields : Patterns

pub record Gate : Type 0 where
  pub allowed : List Operation
  pub denied : List Operation
  pub update_policy : Option Policy
  pub delete_policy : Option Policy

abbrev pub Blocks : Type 0
Blocks = List (Bytes × Bytes × Gate)

pub record GovernanceContract : Type 0 where
  pub blocks : Blocks
  pub defaults : Option Gate

pub data GovernanceError : Type 0 where
  -- `check`
  denies : Operation → Bytes → Bytes → GovernanceError
  denies_entry : Operation → Bytes → GovernanceError
  denies_field : Operation → Bytes → GovernanceError
  -- `check_ceiling`
  exceeds_default : Operation → GovernanceError
  exceeds_grant : Bytes → Bytes → Operation → GovernanceError
  exceeds_list : Bytes → Bytes → Operation → Bytes → GovernanceError

-- `self.blocks.get(&(kind, id))`
unfoldable pub find_block : Blocks → Bytes → Bytes → Option Gate
find_block [] kind id = none
find_block ((k, i, g) ∷ blocks) kind id =
    if text_eq k kind && text_eq i id then some g else find_block blocks kind id

abbrev pub gate : GovernanceContract → Bytes → Bytes → Option Gate
gate c kind id = find_block c.blocks kind id

unfoldable pub contains_operation : List Operation → Operation → Bool
contains_operation operations operation = any (λ o. same_operation o operation) operations

-- `gate.is_some_and(|gate| gate.allowed.contains(&operation))`
abbrev pub gate_allows : Option Gate → Operation → Bool
gate_allows none operation = false
gate_allows (some g) operation = contains_operation g.allowed operation

abbrev pub gate_denies : Option Gate → Operation → Bool
gate_denies none operation = false
gate_denies (some g) operation = contains_operation g.denied operation

unfoldable pub operation_allowed : GovernanceContract → Bytes → Bytes → Operation → Bool
operation_allowed c kind id operation =
    let own = gate c kind id in
    let denied = gate_denies own operation || gate_denies c.defaults operation in
    let allowed = gate_allows own operation || gate_allows c.defaults operation in
    allowed && not denied

abbrev pub policy_of : Operation → Gate → Option Policy
policy_of add g = none
policy_of update g = g.update_policy
policy_of delete g = g.delete_policy

abbrev pub and_policy : Option Gate → Operation → Option Policy
and_policy none operation = none
and_policy (some g) operation = policy_of operation g

abbrev pub or_else {ℓ} : {A : Type ℓ} → Option A → Option A → Option A
or_else none o = o
or_else (some a) o = some a

-- the entity's own policy, or the one of the defaults
unfoldable pub policy_in_force : GovernanceContract → Bytes → Bytes → Operation → Option Policy
policy_in_force c kind id operation =
    or_else (and_policy (gate c kind id) operation) (and_policy c.defaults operation)

-- `denied.iter().any(|pattern| glob_match(pattern, value))`
abbrev pub lists : Patterns → Bytes → Bool
lists none value = false
lists (some patterns) value = any (λ pattern. glob_match pattern value) patterns

abbrev pub lists_or_open : Patterns → Bytes → Bool
lists_or_open none value = true
lists_or_open (some patterns) value = any (λ pattern. glob_match pattern value) patterns

unfoldable pub passes : Bytes → Patterns → Patterns → Bool
passes value allowed denied = if lists denied value then false else lists_or_open allowed value

unfoldable pub check_entry : Operation → Policy → Option Bytes → Result GovernanceError (Unit {0})
check_entry operation policy none = ok tt
check_entry operation policy (some entry) =
    guard (passes entry policy.allowed_entries policy.denied_entries) (denies_entry operation entry)

unfoldable pub check_fields : Operation → Policy → List Bytes → Result GovernanceError (Unit {0})
check_fields operation policy [] = ok tt
check_fields operation policy (field ∷ fields) = do
  guard (passes field policy.allowed_fields policy.denied_fields) (denies_field operation field)
  check_fields operation policy fields

unfoldable pub check_policy :
    Operation → Option Policy → Option Bytes → List Bytes → Result GovernanceError (Unit {0})
check_policy operation none entry fields = ok tt
check_policy operation (some policy) entry fields = do
  check_entry operation policy entry
  check_fields operation policy fields

unfoldable pub check :
    GovernanceContract
    → Bytes
    → Bytes
    → Operation
    → Option Bytes
    → List Bytes
    → Result GovernanceError (Unit {0})
check c kind id operation entry fields = do
  guard (operation_allowed c kind id operation) (denies operation kind id)
  check_policy operation (policy_in_force c kind id operation) entry fields

-- `allowed.iter().any(|ceiling| ceiling == pattern)`
abbrev pub granted_verbatim : Patterns → Bytes → Bool
granted_verbatim none pattern = true
granted_verbatim (some patterns) pattern = any (λ ceiling. text_eq ceiling pattern) patterns

abbrev pub denies_nothing : Patterns → Bool
denies_nothing none = true
denies_nothing (some patterns) = is_empty patterns

unfoldable pub pattern_within : Bytes → Patterns → Patterns → Bool
pattern_within pattern allowed denied =
    if not (contains_byte b'*' pattern)
    then passes pattern allowed denied
    else granted_verbatim allowed pattern && denies_nothing denied

abbrev pub default_covers : Option Gate → Operation → Bool
default_covers none operation = false
default_covers (some ceiling) operation =
    contains_operation ceiling.allowed operation
    && not (contains_operation ceiling.denied operation)

unfoldable pub ceiling_defaults :
    GovernanceContract → List Operation → Result GovernanceError (Unit {0})
ceiling_defaults c [] = ok tt
ceiling_defaults c (operation ∷ operations) = do
  guard (default_covers c.defaults operation) (exceeds_default operation)
  ceiling_defaults c operations

unfoldable pub ceiling_grants :
    GovernanceContract → Bytes → Bytes → List Operation → Result GovernanceError (Unit {0})
ceiling_grants c kind id [] = ok tt
ceiling_grants c kind id (operation ∷ operations) = do
  guard (operation_allowed c kind id operation) (exceeds_grant kind id operation)
  ceiling_grants c kind id operations

-- `for pattern in list.iter().flatten()`
unfoldable pub ceiling_patterns :
    Bytes → Bytes → Operation → List Bytes → Patterns → Patterns → Result GovernanceError (Unit {0})
ceiling_patterns kind id operation [] allowed denied = ok tt
ceiling_patterns kind id operation (pattern ∷ patterns) allowed denied = do
  guard (pattern_within pattern allowed denied) (exceeds_list kind id operation pattern)
  ceiling_patterns kind id operation patterns allowed denied

abbrev pub listed : Patterns → List Bytes
listed none = []
listed (some patterns) = patterns

-- a scope below against the scope above; without one of the two there is nothing to compare
unfoldable pub ceiling_policy :
    Bytes → Bytes → Operation → Option Policy → Option Policy → Result GovernanceError (Unit {0})
ceiling_policy kind id operation none upper = ok tt
ceiling_policy kind id operation (some policy) none = ok tt
ceiling_policy kind id operation (some policy) (some ceiling) = do
  ceiling_patterns kind id operation (listed policy.allowed_entries) ceiling.allowed_entries
      ceiling.denied_entries
  ceiling_patterns kind id operation (listed policy.allowed_fields) ceiling.allowed_fields
      ceiling.denied_fields

unfoldable pub ceiling_block :
    GovernanceContract → Bytes → Bytes → Gate → Result GovernanceError (Unit {0})
ceiling_block c kind id g = do
  ceiling_grants c kind id g.allowed
  ceiling_policy kind id update g.update_policy (and_policy (gate c kind id) update)
  ceiling_policy kind id delete g.delete_policy (and_policy (gate c kind id) delete)

-- the loop over the lower contract's blocks; an id that is not declared below is skipped
unfoldable pub ceiling_blocks :
    GovernanceContract → (Bytes → Bytes → Bool) → Blocks → Result GovernanceError (Unit {0})
ceiling_blocks c declared_below [] = ok tt
ceiling_blocks c declared_below ((kind, id, g) ∷ blocks) =
    if declared_below kind id
    then (do ceiling_block c kind id g; ceiling_blocks c declared_below blocks)
    else ceiling_blocks c declared_below blocks

unfoldable pub ceiling_lower_defaults :
    GovernanceContract → Option Gate → Bool → Result GovernanceError (Unit {0})
ceiling_lower_defaults c none any_declared_below = ok tt
ceiling_lower_defaults c (some lower) any_declared_below =
    if any_declared_below then ceiling_defaults c lower.allowed else ok tt

unfoldable pub check_ceiling :
    GovernanceContract
    → GovernanceContract
    → (Bytes → Bytes → Bool)
    → Bool
    → Result GovernanceError (Unit {0})
check_ceiling c lower declared_below any_declared_below = do
  ceiling_lower_defaults c lower.defaults any_declared_below
  ceiling_blocks c declared_below lower.blocks
