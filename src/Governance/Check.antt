-- ===== src/Governance/Check.antt =====
-- `check` of src/source/governance.rs against the words of a contract.
use rototo.Base.{
  true, false, List, [], ◌∷◌, Option, none, some, ◌≡◌, ◌↔◌, ◌⊎◌, inl, inr, refl, arith,
  if◌then◌else◌, any, All, Any, any-Any, Any-any, Bool-cases, ok, Bytes,
}
use rototo.Governance.Glob.{glob_match, Matches}
use rototo.Governance.GlobMatches.{glob_match_iff}
use rototo.Governance.Contract.{
  Operation, same_operation, Patterns, Policy, Gate, GovernanceContract, gate, contains_operation,
  gate_allows, gate_denies, operation_allowed, and_policy, or_else, policy_in_force, lists,
  lists_or_open, passes, check_entry, check_fields, check_policy, check,
}

abbrev pub Names : Option Gate → Operation → (Gate → List Operation) → Type 0
Names none operation list = ⊥
Names (some g) operation list = Any (λ o. o ≡ operation) (list g)

-- granted by the entity's block or by the defaults, and denied by neither
abbrev pub IsGranted : GovernanceContract → Bytes → Bytes → Operation → Type 0
IsGranted c kind id operation =
    (Names (gate c kind id) operation (λ g. g.allowed)
      ⊎ Names c.defaults operation (λ g. g.allowed))
    × (¬ Names (gate c kind id) operation (λ g. g.denied))
    × (¬ Names c.defaults operation (λ g. g.denied))

abbrev pub Lists : Patterns → Bytes → Type 0
Lists none value = ⊥
Lists (some patterns) value = Any (λ pattern. Matches pattern value) patterns

abbrev pub IsOpenTo : Patterns → Bytes → Type 0
IsOpenTo none value = Unit
IsOpenTo (some patterns) value = Any (λ pattern. Matches pattern value) patterns

-- A denylist wins over an allowlist, and an allowlist restricts when it is there.
abbrev pub Passes : Patterns → Patterns → Bytes → Type 0
Passes allowed denied value = (¬ Lists denied value) × IsOpenTo allowed value

abbrev EntryPasses : Policy → Option Bytes → Type 0
EntryPasses p none = Unit
EntryPasses p (some entry) = Passes p.allowed_entries p.denied_entries entry

abbrev InScope : Option Policy → Option Bytes → List Bytes → Type 0
InScope none entry fields = Unit
InScope (some p) entry fields =
    EntryPasses p entry × All (Passes p.allowed_fields p.denied_fields) fields

-- the scope of an operation: the entity's own policy, or without one that of the defaults
abbrev pub IsWithinPolicy :
    GovernanceContract → Bytes → Bytes → Operation → Option Bytes → List Bytes → Type 0
IsWithinPolicy c kind id operation entry fields =
    InScope (or_else (and_policy (gate c kind id) operation) (and_policy c.defaults operation))
      entry fields

same_operation_iff : (a b : Operation) → (same_operation a b ≡ true) ↔ (a ≡ b)
unfolding same_operation
same_operation_iff a b = ground arith

pub contains_operation_iff :
    (operations : List Operation) (o : Operation)
    → (contains_operation operations o ≡ true) ↔ Any (λ x. x ≡ o) operations
unfolding contains_operation
contains_operation_iff operations o = (
  any-Any (λ x. same_operation x o) (λ x. (same_operation_iff x o).0) operations,
  Any-any (λ x. same_operation x o) (λ x. (same_operation_iff x o).1) operations,
)

gate_allows_iff :
    (g : Option Gate) (o : Operation) → (gate_allows g o ≡ true) ↔ Names g o (λ g. g.allowed)
gate_allows_iff none o = (λ h. cc, λ h. absurd h)
gate_allows_iff (some g) o = contains_operation_iff g.allowed o

gate_denies_iff :
    (g : Option Gate) (o : Operation) → (gate_denies g o ≡ true) ↔ Names g o (λ g. g.denied)
gate_denies_iff none o = (λ h. cc, λ h. absurd h)
gate_denies_iff (some g) o = contains_operation_iff g.denied o

pub operation_allowed-IsGranted :
    (c : GovernanceContract) (kind id : Bytes) (o : Operation)
    → operation_allowed c kind id o ≡ true
    → IsGranted c kind id o
unfolding operation_allowed
operation_allowed-IsGranted c kind id o h = (
  elim (Bool-cases (gate_allows (gate c kind id) o)) [
    | inl e ↦ inl ((gate_allows_iff (gate c kind id) o).0 e)
    | inr e ↦ inr ((gate_allows_iff c.defaults o).0 (ground arith))
  ],
  λ n. let d = (gate_denies_iff (gate c kind id) o).1 n in ground arith,
  λ n. let d = (gate_denies_iff c.defaults o).1 n in ground arith,
)

denied_false :
    (g : Option Gate) (o : Operation) → ¬ Names g o (λ g. g.denied) → gate_denies g o ≡ false
denied_false g o n = elim (Bool-cases (gate_denies g o)) [
  | inl e ↦ absurd (n ((gate_denies_iff g o).0 e))
  | inr e ↦ e
]

IsGranted-operation_allowed :
    (c : GovernanceContract) (kind id : Bytes) (o : Operation)
    → IsGranted c kind id o
    → operation_allowed c kind id o ≡ true
unfolding operation_allowed
IsGranted-operation_allowed c kind id o (inl a, d, e) = ground (
  arith,
  (gate_allows_iff (gate c kind id) o).1 a,
  denied_false (gate c kind id) o d,
  denied_false c.defaults o e,
)
IsGranted-operation_allowed c kind id o (inr a, d, e) = ground (
  arith,
  (gate_allows_iff c.defaults o).1 a,
  denied_false (gate c kind id) o d,
  denied_false c.defaults o e,
)

-- An operation is on exactly when it is granted and not denied.
pub operation_allowed_iff :
    (c : GovernanceContract) (kind id : Bytes) (o : Operation)
    → (operation_allowed c kind id o ≡ true) ↔ IsGranted c kind id o
operation_allowed_iff c kind id o =
    (operation_allowed-IsGranted c kind id o, IsGranted-operation_allowed c kind id o)

any_glob_iff :
    (patterns : List Bytes) (value : Bytes)
    → (any (λ pattern. glob_match pattern value) patterns ≡ true)
      ↔ Any (λ pattern. Matches pattern value) patterns
any_glob_iff patterns value = (
  any-Any (λ pattern. glob_match pattern value) (λ p. (glob_match_iff p value).0) patterns,
  Any-any (λ pattern. glob_match pattern value) (λ p. (glob_match_iff p value).1) patterns,
)

lists_iff : (o : Patterns) (value : Bytes) → (lists o value ≡ true) ↔ Lists o value
lists_iff none value = (λ h. cc, λ h. absurd h)
lists_iff (some ps) value = any_glob_iff ps value

lists_or_open_iff :
    (o : Patterns) (value : Bytes) → (lists_or_open o value ≡ true) ↔ IsOpenTo o value
lists_or_open_iff none value = (λ h. tt, λ h. refl)
lists_or_open_iff (some ps) value = any_glob_iff ps value

pub passes_iff :
    (allowed denied : Patterns) (value : Bytes)
    → (passes value allowed denied ≡ true) ↔ Passes allowed denied value
unfolding passes
passes_iff allowed denied value = (to, from)
  where
    to :
        (if lists denied value then false else lists_or_open allowed value) ≡ true
        → Passes allowed denied value
    to h = (
      λ l. let e = (lists_iff denied value).1 l in ground arith,
      (lists_or_open_iff allowed value).0 (ground arith),
    )

    from :
        Passes allowed denied value
        → (if lists denied value then false else lists_or_open allowed value) ≡ true
    from (n, o) = elim (Bool-cases (lists denied value)) [
      | inl e ↦ absurd (n ((lists_iff denied value).0 e))
      | inr e ↦ rw e ((lists_or_open_iff allowed value).1 o)
    ]

check_fields-Passes :
    (o : Operation) (p : Policy) (fields : List Bytes)
    → check_fields o p fields ≡ ok tt
    → All (Passes p.allowed_fields p.denied_fields) fields
unfolding check_fields
check_fields-Passes o p [] h = tt
check_fields-Passes o p (f ∷ fields) h = (
  (passes_iff p.allowed_fields p.denied_fields f).0 (ground arith),
  check_fields-Passes o p fields (ground arith),
)

Passes-check_fields :
    (o : Operation) (p : Policy) (fields : List Bytes)
    → All (Passes p.allowed_fields p.denied_fields) fields
    → check_fields o p fields ≡ ok tt
unfolding check_fields
Passes-check_fields o p [] h = refl
Passes-check_fields o p (f ∷ fields) (hf, h) =
    rw ((passes_iff p.allowed_fields p.denied_fields f).1 hf) (Passes-check_fields o p fields h)

check_policy-InScope :
    (o : Operation) (q : Option Policy) (entry : Option Bytes) (fields : List Bytes)
    → check_policy o q entry fields ≡ ok tt
    → InScope q entry fields
unfolding check_policy check_entry
check_policy-InScope o none entry fields h = tt
check_policy-InScope o (some p) none fields h = (tt, check_fields-Passes o p fields h)
check_policy-InScope o (some p) (some e) fields h = (
  (passes_iff p.allowed_entries p.denied_entries e).0 (ground arith),
  check_fields-Passes o p fields (ground arith),
)

InScope-check_policy :
    (o : Operation) (q : Option Policy) (entry : Option Bytes) (fields : List Bytes)
    → InScope q entry fields
    → check_policy o q entry fields ≡ ok tt
unfolding check_policy check_entry
InScope-check_policy o none entry fields h = refl
InScope-check_policy o (some p) none fields (he, h) = Passes-check_fields o p fields h
InScope-check_policy o (some p) (some e) fields (he, h) =
    rw ((passes_iff p.allowed_entries p.denied_entries e).1 he) (Passes-check_fields o p fields h)

-- A contract lets an operation pass exactly when the operation is granted by the entity's block or
-- the defaults and denied by neither, and the entry and every field pass the lists of the policy
-- in force, which is the entity's own or else that of the defaults.
pub check_iff :
    (c : GovernanceContract) (kind id : Bytes) (o : Operation) (entry : Option Bytes)
    (fields : List Bytes)
    → (check c kind id o entry fields ≡ ok tt)
      ↔ (IsGranted c kind id o × IsWithinPolicy c kind id o entry fields)
unfolding check policy_in_force
check_iff c kind id o entry fields = (
  λ h. (
    operation_allowed-IsGranted c kind id o (ground arith),
    check_policy-InScope o _ entry fields (ground arith),
  ),
  λ (g, s).
      rw (IsGranted-operation_allowed c kind id o g) (InScope-check_policy o _ entry fields s),
)
