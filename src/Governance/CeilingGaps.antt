-- ===== src/Governance/CeilingGaps.antt =====
-- `check_ceiling` of src/source/governance.rs on a block with no scope under a scoped block, and on a
-- default grant under a block that denies.
use rototo.Base.{
  Bool, true, false, List, [], ◌∷◌, Option, none, some, ◌≡◌, refl, arith, any, ok, err, Bytes,
  text_eq_iff,
}
use rototo.Governance.Contract.{
  GovernanceError, update, Gate, GovernanceContract, gate, find_block, contains_operation,
  same_operation, operation_allowed, policy_in_force, check_policy, check, default_covers,
  ceiling_defaults, ceiling_grants, ceiling_policy, ceiling_block, ceiling_blocks,
  ceiling_lower_defaults, check_ceiling,
}

-- a contract of one block that allows updates and scopes nothing
abbrev pub unscoped : Bytes → Bytes → GovernanceContract
unscoped kind id = record {
  blocks =
      (
        kind,
        id,
        record { allowed = update ∷ []; denied = []; update_policy = none; delete_policy = none },
      )
      ∷ [];
  defaults = none;
}

-- a contract that only allows updates by default
abbrev pub open_by_default : GovernanceContract
open_by_default = record {
  blocks = [];
  defaults =
      some
        (record { allowed = update ∷ []; denied = []; update_policy = none; delete_policy = none });
}

find_block_self : (kind id : Bytes) (g : Gate) → find_block ((kind, id, g) ∷ []) kind id ≡ some g
unfolding find_block
find_block_self kind id g = rw ((text_eq_iff kind kind).1 refl, (text_eq_iff id id).1 refl)

-- For every contract that allows updates of an entity and refuses one of them by its policy, the
-- ceiling accepts a lower contract whose block for the entity allows updates with no policy, and
-- that lower contract lets the refused update pass.
pub unscoped_accepted :
    (c : GovernanceContract) (kind id : Bytes) (declared : Bytes → Bytes → Bool)
    (some_declared : Bool) (entry : Option Bytes) (fields : List Bytes) (e : GovernanceError)
    → operation_allowed c kind id update ≡ true
    → check c kind id update entry fields ≡ err e
    → (check_ceiling c (unscoped kind id) declared some_declared ≡ ok tt)
      × (check (unscoped kind id) kind id update entry fields ≡ ok tt)
unscoped_accepted c kind id declared some_declared entry fields e h refused = (
  unfold check_ceiling ceiling_lower_defaults ceiling_blocks ceiling_block ceiling_grants
        ceiling_policy in
      ground arith,
  granted,
)
  where
    granted : check (unscoped kind id) kind id update entry fields ≡ ok tt
    granted =
        unfold check operation_allowed policy_in_force check_policy contains_operation
          same_operation any in
        rw (find_block_self kind id) refl

-- For every contract whose defaults allow updates and whose block for an entity denies them, the
-- ceiling accepts a lower contract that allows updates by default; the upper contract forbids
-- updates of the entity and the lower one allows them.
pub default_accepted :
    (c : GovernanceContract) (kind id : Bytes) (declared : Bytes → Bytes → Bool)
    (some_declared : Bool) (own : Gate)
    → gate c kind id ≡ some own
    → contains_operation own.denied update ≡ true
    → default_covers c.defaults update ≡ true
    → (check_ceiling c open_by_default declared some_declared ≡ ok tt)
      × (operation_allowed c kind id update ≡ false)
      × (operation_allowed open_by_default kind id update ≡ true)
default_accepted c kind id declared some_declared own f d h = (
  unfold check_ceiling ceiling_lower_defaults ceiling_defaults ceiling_blocks in ground arith,
  unfold operation_allowed in rw (f, d) (ground arith),
  unfold operation_allowed find_block contains_operation same_operation any in refl,
)
