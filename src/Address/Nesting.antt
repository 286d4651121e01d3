-- ===== src/Address/Nesting.antt =====
-- `Address::validate` of src/address.rs against the chains of the grammar.
use mathlib.Core.Path.{subst}
use rototo.Base.{
  true, false, List, [], ◌∷◌, Option, none, some, ◌≡◌, ◌≢◌, inl, inr, refl, arith, ok, Bytes,
  Bool-cases,
}
use rototo.Address.Class.{EntityClass, parent, has_document, is_package}
use rototo.Address.Syntax.{
  StepId, empty, subtree, entity, Step, Address, is_entity_id, same_class, check_parent,
  check_nesting, validate_steps, last_of, last_step, step_is_entity, is_entity,
  check_pointer_target, validate,
}
use rototo.Address.Grammar.{Chain, root, nested, IsDocument, PointerFits}

same_class-eq : (a b : EntityClass) → same_class a b ≡ true → a ≡ b
unfolding same_class
same_class-eq a b h = ground arith

same_class_self : (a : EntityClass) → same_class a a ≡ true
unfolding same_class
same_class_self a = ground arith

-- A parent class is a root class, so chains have two steps at most.
parent_is_root : (c d : EntityClass) → parent c ≡ some d → parent d ≡ none
unfolding parent
parent_is_root c d h = ground arith

validate_root : (s : Step) → validate_steps none (s ∷ []) ≡ ok tt → parent s.class ≡ none
unfolding validate_steps check_nesting
validate_root s h = ground arith

check_nesting-eq-ok :
    (p s : Step) (o : Option EntityClass)
    → check_nesting (some p) s o ≡ ok tt
    → (o ≡ some p.class) × (is_entity_id p.id ≡ true)
unfolding check_nesting check_parent
check_nesting-eq-ok p s none h = absurd (ground arith)
check_nesting-eq-ok p s (some e) h = ground (arith, same_class-eq p.class e)

check_nesting_holds :
    (p s : Step) → is_entity_id p.id ≡ true → check_nesting (some p) s (some p.class) ≡ ok tt
unfolding check_nesting check_parent
check_nesting_holds p s h = rw (same_class_self p.class, h)

module _ (p s : Step) where
  validate_pair :
      validate_steps none (p ∷ s ∷ []) ≡ ok tt
      → (parent s.class ≡ some p.class) × (is_entity_id p.id ≡ true)
  unfolding validate_steps
  validate_pair h = ground (arith, check_nesting-eq-ok p s (parent s.class))

  validate_triple : (t : Step) (rest : List Step) → validate_steps none (p ∷ s ∷ t ∷ rest) ≢ ok tt
  unfolding validate_steps
  validate_triple t rest h = ground (
    arith,
    check_nesting-eq-ok p s (parent s.class),
    check_nesting-eq-ok s t (parent t.class),
    parent_is_root t.class s.class,
  )

entity_id : (id : StepId) → is_entity_id id ≡ true → (i : Bytes) × (id ≡ entity i)
entity_id (entity i) h = (i, refl)
entity_id empty h = absurd (ground arith)
entity_id (subtree p) h = absurd (ground arith)

-- A validated chain, the empty one apart, is a chain of the grammar.
pub validate_steps-Chain :
    (steps : List Step)
    → steps ≢ []
    → validate_steps none steps ≡ ok tt
    → (last : Step) × Chain steps last
validate_steps-Chain [] ne h = absurd (ne refl)
validate_steps-Chain (s ∷ []) ne h = (s, root s (validate_root s h))
validate_steps-Chain (p ∷ s ∷ []) ne h =
    let (nests, concrete) = validate_pair p s h in
    let (i, e) = entity_id p.id concrete in (s, nested p s i e nests)
validate_steps-Chain (p ∷ s ∷ t ∷ rest) ne h = absurd (validate_triple p s t rest h)

nesting_starts : (q : Step) → check_nesting none q none ≡ ok tt
unfolding check_nesting
nesting_starts q = refl

-- A chain of the grammar is validated.
pub Chain-validate_steps :
    {steps : List Step} {last : Step} → Chain steps last → validate_steps none steps ≡ ok tt
unfolding validate_steps
Chain-validate_steps (root s h) = unfold check_nesting in rw h
Chain-validate_steps (nested p s i e h) =
    rw (parent_is_root s.class p.class h, h, nesting_starts p, check_nesting_holds p s (rw e))

pub Chain-last_of : {steps : List Step} {last : Step} → Chain steps last → last_of steps ≡ ok last
unfolding last_of
Chain-last_of (root s h) = refl
Chain-last_of (nested p s i e h) = refl

pub Chain-ne_nil : {steps : List Step} {last : Step} → Chain steps last → steps ≢ []
Chain-ne_nil (root s h) = λ e. cc
Chain-ne_nil (nested p s i e h) = λ e. cc

document_ne_package : (c : EntityClass) → has_document c ≡ true → is_package c ≡ false
unfolding has_document is_package
document_ne_package c h = ground arith

pub IsDocument-of :
    (s : Step) → step_is_entity s ≡ true → has_document s.class ≡ true → IsDocument s
unfolding step_is_entity
IsDocument-of s h d = (
  d,
  elim (Bool-cases (is_entity_id s.id)) [
    | inl e ↦ inl (entity_id s.id e)
    | inr e ↦ inr (ground arith)
  ],
)

pub IsDocument-step_is_entity : (s : Step) → IsDocument s → step_is_entity s ≡ true
unfolding step_is_entity
IsDocument-step_is_entity s (d, inl (i, e)) = rw e
IsDocument-step_is_entity s (d, inr e) = rw e (ground (arith, document_ne_package s.class))

-- With a pointer, `validate` asks the last step for a document.
module _ (a : Address) (last : Step) (ends : last_of a.steps ≡ ok last) where
  pub check_pointer_target-IsDocument :
      (p : Bytes) → check_pointer_target a (some p) ≡ ok tt → IsDocument last
  unfolding check_pointer_target is_entity last_step
  check_pointer_target-IsDocument p h = IsDocument-of last (ground arith) (ground arith)

  pub IsDocument-check_pointer_target :
      (p : Bytes) → IsDocument last → check_pointer_target a (some p) ≡ ok tt
  unfolding check_pointer_target is_entity last_step
  IsDocument-check_pointer_target p h = rw (ends, IsDocument-step_is_entity last h, h.0)

pub validate-IsAddress :
    (a : Address)
    → a.steps ≢ []
    → validate a ≡ ok tt
    → (last : Step) × Chain a.steps last × ((p : Bytes) → a.pointer ≡ some p → IsDocument last)
validate-IsAddress a ne h =
    let (last, chain) = validate_steps-Chain a.steps ne (unfold validate in ground arith) in
    let pointed : check_pointer_target a a.pointer ≡ ok tt = unfold validate in ground arith in
    (
      last,
      chain,
      λ p e.
          check_pointer_target-IsDocument a last (Chain-last_of chain) p
            (subst (λ o. check_pointer_target a o ≡ ok tt) e pointed),
    )

pub IsAddress-validate :
    {last : Step} (steps : List Step) (pointer : Option Bytes)
    → Chain steps last
    → PointerFits last pointer
    → validate (record { steps = steps; pointer = pointer }) ≡ ok tt
unfolding validate
IsAddress-validate steps none c f =
    rw (Chain-validate_steps c) (unfold check_pointer_target in refl)
IsAddress-validate {last} steps (some p) c f = rw (Chain-validate_steps c) (
    IsDocument-check_pointer_target (record { steps = steps; pointer = some p }) last
      (Chain-last_of c) p f.1)
