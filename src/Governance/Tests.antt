-- ===== src/Governance/Tests.antt =====
-- Runs of src/source/governance.rs, and its theorems at concrete contracts.
use rototo.Base.{
  Bool, true, false, List, [], ◌∷◌, Option, none, some, ◌≡◌, ◌↔◌, refl, Result, ok, err, Bytes,
  codes, text_eq, any, strip_prefix, strip_suffix, ends_with, split, contains_byte, Any,
}
use rototo.Governance.Glob.{
  find_after, match_parts, last_part, closes, match_split, glob_match, Matches,
}
use rototo.Governance.GlobMatches.{glob_match_iff}
use rototo.Governance.Contract.{
  GovernanceError, Operation, add, update, delete, Gate, GovernanceContract, denies_field, gate,
  find_block, contains_operation, same_operation, operation_allowed, policy_in_force, passes,
  check_entry, check_fields, check_policy, check, pattern_within, ceiling_grants, ceiling_patterns,
  ceiling_policy, ceiling_block, ceiling_blocks, ceiling_lower_defaults, check_ceiling, and_policy,
}
use rototo.Toml.{Table, string, array, table, end_array, element, end_table, pair, get}
use rototo.Toml.Fields.{IsProper}
use rototo.Governance.Parse.{operation_name, parse_operation, parse_contract}
use rototo.Governance.ParsedItems.{parse_operation_iff}
use rototo.Governance.Parsed.{declared_gate, declared_defaults, parse_contract-declares}
use rototo.Governance.Check.{IsGranted, IsWithinPolicy, check_iff, Passes}
use rototo.Governance.Ceiling.{Narrows, pattern_within_sound, check_ceiling_sound}
use rototo.Governance.CeilingGaps.{unscoped, open_by_default, unscoped_accepted, default_accepted}

run_glob : Bytes → Bytes → Bool
unfolding glob_match match_split split strip_prefix match_parts find_after closes last_part text_eq
    ends_with strip_suffix
run_glob = glob_match

overlap : glob_match (codes "ab*ba") (codes "aba") ≡ false
unfolding run_glob
overlap = refl

middle : glob_match (codes "*-eu-*") (codes "plan-eu-west") ≡ true
unfolding run_glob
middle = refl

glob_match_iff_example :
    (glob_match (codes "price*") (codes "price_usd") ≡ true)
    ↔ Matches (codes "price*") (codes "price_usd")
glob_match_iff_example = glob_match_iff (codes "price*") (codes "price_usd")

abbrev catalog : Bytes
catalog = codes "catalog"

abbrev plans : Bytes
plans = codes "plans"

-- updates of the fields `price*` only, and deletes by no one
abbrev base : GovernanceContract
base = record {
  blocks =
      (
        catalog,
        plans,
        record {
          allowed = update ∷ add ∷ [];
          denied = delete ∷ [];
          update_policy = some (record {
            allowed_entries = none;
            denied_entries = none;
            allowed_fields = some (codes "price*" ∷ []);
            denied_fields = none;
          });
          delete_policy = none;
        },
      )
      ∷ [];
  defaults = none;
}

run_check :
    GovernanceContract
    → Bytes
    → Bytes
    → Operation
    → Option Bytes
    → List Bytes
    → Result GovernanceError (Unit {0})
unfolding run_glob check operation_allowed find_block contains_operation same_operation any
    policy_in_force passes check_entry check_fields check_policy
run_check = check

check_iff_example : (check base catalog plans update none (codes "price_usd" ∷ []) ≡ ok tt) ↔ (
    IsGranted base catalog plans update
    × IsWithinPolicy base catalog plans update none (codes "price_usd" ∷ []))
check_iff_example = check_iff base catalog plans update none (codes "price_usd" ∷ [])

other_field :
    check base catalog plans update none (codes "title" ∷ [])
    ≡ err (denies_field update (codes "title"))
unfolding run_check
other_field = refl

update_allowed : operation_allowed base catalog plans update ≡ true
unfolding run_check
update_allowed = refl

unscoped_accepted_example :
    (check_ceiling base (unscoped catalog plans) (λ k i. true) true ≡ ok tt)
    × (check (unscoped catalog plans) catalog plans update none (codes "title" ∷ []) ≡ ok tt)
unscoped_accepted_example =
    unscoped_accepted base catalog plans (λ k i. true) true none (codes "title" ∷ [])
      (denies_field update (codes "title")) update_allowed other_field

price-Matches : Matches (codes "price_usd") (codes "price_usd")
price-Matches = (glob_match_iff (codes "price_usd") (codes "price_usd")).0 (unfold run_glob in refl)

pattern_within_sound_example : Passes (some (codes "price*" ∷ [])) none (codes "price_usd")
pattern_within_sound_example =
    pattern_within_sound (codes "price_usd") (codes "price_usd") (some (codes "price*" ∷ [])) none
      (unfold run_check pattern_within contains_byte in refl) price-Matches

-- a contract below `base` that grants updates of one field
abbrev narrow_gate : Gate
narrow_gate = record {
  allowed = update ∷ [];
  denied = [];
  update_policy = some (record {
    allowed_entries = none;
    denied_entries = none;
    allowed_fields = some (codes "price_usd" ∷ []);
    denied_fields = none;
  });
  delete_policy = none;
}

abbrev narrow : GovernanceContract
narrow = record { blocks = (catalog, plans, narrow_gate) ∷ []; defaults = none }

check_ceiling_sound_example :
    ((o : Operation) → Any (λ x. x ≡ o) (update ∷ []) → IsGranted base catalog plans o)
    × Narrows update narrow_gate.update_policy (and_policy (gate base catalog plans) update)
    × Narrows delete none (and_policy (gate base catalog plans) delete)
check_ceiling_sound_example =
    check_ceiling_sound base narrow (λ k i. true) true catalog plans narrow_gate
      (unfold run_check check_ceiling ceiling_lower_defaults ceiling_blocks ceiling_block
          ceiling_grants ceiling_policy ceiling_patterns pattern_within contains_byte in
        refl)
      refl (unfold run_check in refl)

-- every operation is open by default, and one block denies updates
abbrev guarded_gate : Gate
guarded_gate = record {
  allowed = [];
  denied = update ∷ [];
  update_policy = none;
  delete_policy = none;
}

abbrev guarded : GovernanceContract
guarded = record {
  blocks = (catalog, plans, guarded_gate) ∷ [];
  defaults =
      some
        (record { allowed = update ∷ []; denied = []; update_policy = none; delete_policy = none });
}

default_accepted_example :
    (check_ceiling guarded open_by_default (λ k i. true) true ≡ ok tt)
    × (operation_allowed guarded catalog plans update ≡ false)
    × (operation_allowed open_by_default catalog plans update ≡ true)
default_accepted_example =
    default_accepted guarded catalog plans (λ k i. true) true guarded_gate
      (unfold run_check in refl) (unfold run_check in refl) (unfold run_check in refl)

abbrev document : Table (Unit {0})
document =
    pair catalog
      (table (
        pair plans
          (table (
            pair (codes "allowed_operations") (array (element (string (codes "update")) end_array))
              end_table))
          end_table))
      end_table

document-IsProper : IsProper (table document)
unfolding IsProper get
document-IsProper = (refl, (refl, (refl, tt, tt), tt), tt)

parse_contract-declares_example :
    (gate (parse_contract (table document)) catalog plans ≡ declared_gate document catalog plans)
    × ((parse_contract (table document)).defaults ≡ declared_defaults document)
parse_contract-declares_example = parse_contract-declares document catalog plans document-IsProper

parse_operation_iff_example :
    (parse_operation (codes "override") ≡ some update) ↔ (codes "override" ≡ operation_name update)
parse_operation_iff_example = parse_operation_iff (codes "override") update
