-- ===== src/Governance/Ceiling.antt =====
-- `check_ceiling` of src/source/governance.rs: what an accepted lower contract can grant.
use mathlib.Core.Path.{subst}
use rototo.Base.{
  ℕ, Bool, true, false, List, [], ◌∷◌, Option, none, some, ◌≡◌, inl, inr, arith, Any, any-Any,
  Bool-cases, ok, Bytes, Lacks, text_eq, text_eq_iff, contains_byte,
}
use rototo.Governance.Glob.{Matches}
use rototo.Governance.GlobMatches.{Matches-whole}
use rototo.Governance.Contract.{
  Operation, update, delete, Patterns, Policy, Gate, Blocks, GovernanceContract, gate, find_block,
  operation_allowed, and_policy, pattern_within, default_covers, ceiling_defaults, ceiling_grants,
  ceiling_patterns, listed, ceiling_policy, ceiling_block, ceiling_blocks, check_ceiling,
  granted_verbatim, denies_nothing,
}
use rototo.Governance.Check.{
  IsGranted, Passes, Lists, IsOpenTo, operation_allowed-IsGranted, passes_iff,
}

contains_byte-Lacks : (b : ℕ) (s : Bytes) → contains_byte b s ≡ false → Lacks b s
unfolding contains_byte
contains_byte-Lacks b [] h = tt
contains_byte-Lacks b (c ∷ s) h = (ground arith, contains_byte-Lacks b s (ground arith))

verbatim-IsOpenTo :
    (allowed : Patterns) (pattern value : Bytes)
    → granted_verbatim allowed pattern ≡ true
    → Matches pattern value
    → IsOpenTo allowed value
verbatim-IsOpenTo none pattern value h m = tt
verbatim-IsOpenTo (some ps) pattern value h m =
    spread ps (any-Any (λ c. text_eq c pattern) (λ c. (text_eq_iff c pattern).0) ps h)
  where
    spread : (qs : List Bytes) → Any (λ c. c ≡ pattern) qs → Any (λ p. Matches p value) qs
    spread [] a = elim a [ ]
    spread (q ∷ qs) (inl e) = inl (rw e m)
    spread (q ∷ qs) (inr a) = inr (spread qs a)

denies_nothing-Lists :
    (denied : Patterns) (value : Bytes) → denies_nothing denied ≡ true → ¬ Lists denied value
denies_nothing-Lists none value h l = l
denies_nothing-Lists (some []) value h l = elim l [ ]
denies_nothing-Lists (some (p ∷ ps)) value h l = cc

-- If a pattern fits inside the lists of a ceiling, then every value that the pattern matches
-- passes those lists.
pub pattern_within_sound :
    (pattern value : Bytes) (allowed denied : Patterns)
    → pattern_within pattern allowed denied ≡ true
    → Matches pattern value
    → Passes allowed denied value
unfolding pattern_within
pattern_within_sound pattern value allowed denied h m =
    elim (Bool-cases (contains_byte b'*' pattern)) [
      | inl e ↦ (
        denies_nothing-Lists denied value (ground arith),
        verbatim-IsOpenTo allowed pattern value (ground arith) m,
      )
      | inr e ↦
          rw (Matches-whole pattern (contains_byte-Lacks b'*' pattern e) m)
            ((passes_iff allowed denied pattern).0 (ground arith))
    ]

module _ (kind id : Bytes) where
  ceiling_patterns-Passes :
      (o : Operation) (patterns : List Bytes) (allowed denied : Patterns) (value : Bytes)
      → ceiling_patterns kind id o patterns allowed denied ≡ ok tt
      → Any (λ p. Matches p value) patterns
      → Passes allowed denied value
  unfolding ceiling_patterns
  ceiling_patterns-Passes o [] allowed denied value h a = elim a [ ]
  ceiling_patterns-Passes o (p ∷ ps) allowed denied value h (inl m) =
      pattern_within_sound p value allowed denied (ground arith) m
  ceiling_patterns-Passes o (p ∷ ps) allowed denied value h (inr a) =
      ceiling_patterns-Passes o ps allowed denied value (ground arith) a

module _ (c : GovernanceContract) (kind id : Bytes) where
  ceiling_grants-allowed :
      (o : Operation) (operations : List Operation)
      → ceiling_grants c kind id operations ≡ ok tt
      → Any (λ x. x ≡ o) operations
      → operation_allowed c kind id o ≡ true
  unfolding ceiling_grants
  ceiling_grants-allowed o [] h a = elim a [ ]
  ceiling_grants-allowed o (x ∷ xs) h (inl e) =
      subst (λ y. operation_allowed c kind id y ≡ true) e (ground arith)
  ceiling_grants-allowed o (x ∷ xs) h (inr a) = ceiling_grants-allowed o xs (ground arith) a

  ceiling_blocks-block :
      (declared : Bytes → Bytes → Bool) (blocks : Blocks) (g : Gate)
      → ceiling_blocks c declared blocks ≡ ok tt
      → find_block blocks kind id ≡ some g
      → declared kind id ≡ true
      → ceiling_block c kind id g ≡ ok tt
  unfolding ceiling_blocks find_block
  ceiling_blocks-block declared [] g h f d = cc
  ceiling_blocks-block declared ((k, i, g') ∷ blocks) g h f d =
      ground (arith, text_eq_iff k kind, text_eq_iff i id, ceiling_blocks-block declared blocks g)

-- The values that a lower allowlist names pass the lists above it.
abbrev pub Narrows : Operation → Option Policy → Option Policy → Type 0
Narrows o (some p) (some q) =
    ((value : Bytes)
      → Any (λ x. Matches x value) (listed p.allowed_entries)
      → Passes q.allowed_entries q.denied_entries value)
    × ((value : Bytes)
        → Any (λ x. Matches x value) (listed p.allowed_fields)
        → Passes q.allowed_fields q.denied_fields value)
Narrows o _ _ = Unit

ceiling_policy-Narrows :
    (kind id : Bytes) (o : Operation) (p q : Option Policy)
    → ceiling_policy kind id o p q ≡ ok tt
    → Narrows o p q
ceiling_policy-Narrows kind id o none none h = tt
ceiling_policy-Narrows kind id o none (some q) h = tt
ceiling_policy-Narrows kind id o (some p) none h = tt
ceiling_policy-Narrows kind id o (some p) (some q) h =
    unfold ceiling_policy in
    (
      λ value a.
          ceiling_patterns-Passes kind id o (listed p.allowed_entries) q.allowed_entries
            q.denied_entries value (ground arith) a,
      λ value a.
          ceiling_patterns-Passes kind id o (listed p.allowed_fields) q.allowed_fields
            q.denied_fields value (ground arith) a,
    )

-- If the ceiling accepts a lower contract, then for each block of it over an entity that is
-- declared below, every operation that the block allows is granted by the upper contract, and,
-- where both contracts scope updates or deletes of the entity, every entry and field that a lower
-- allowlist matches passes the lists above.
pub check_ceiling_sound :
    (c lower : GovernanceContract) (declared : Bytes → Bytes → Bool) (some_declared : Bool)
    (kind id : Bytes) (g : Gate)
    → check_ceiling c lower declared some_declared ≡ ok tt
    → declared kind id ≡ true
    → gate lower kind id ≡ some g
    → ((o : Operation) → Any (λ x. x ≡ o) g.allowed → IsGranted c kind id o)
      × Narrows update g.update_policy (and_policy (gate c kind id) update)
      × Narrows delete g.delete_policy (and_policy (gate c kind id) delete)
check_ceiling_sound c lower declared some_declared kind id g h d f =
    let blocks : ceiling_blocks c declared lower.blocks ≡ ok tt =
      unfold check_ceiling in ground arith in
    let block = ceiling_blocks-block c kind id declared lower.blocks g blocks f d in
    unfold ceiling_block in
    (
      λ o a.
          operation_allowed-IsGranted c kind id o
            (ceiling_grants-allowed c kind id o g.allowed (ground arith) a),
      ceiling_policy-Narrows kind id update g.update_policy _ (ground arith),
      ceiling_policy-Narrows kind id delete g.delete_policy _ (ground arith),
    )

ceiling_defaults-covers :
    (c : GovernanceContract) (o : Operation) (operations : List Operation)
    → ceiling_defaults c operations ≡ ok tt
    → Any (λ x. x ≡ o) operations
    → default_covers c.defaults o ≡ true
unfolding ceiling_defaults
ceiling_defaults-covers c o [] h a = elim a [ ]
ceiling_defaults-covers c o (x ∷ xs) h (inl e) =
    subst (λ y. default_covers c.defaults y ≡ true) e (ground arith)
ceiling_defaults-covers c o (x ∷ xs) h (inr a) = ceiling_defaults-covers c o xs (ground arith) a
