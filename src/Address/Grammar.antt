-- ===== src/Address/Grammar.antt =====
-- The grammar of addresses in the words of the module comment of src/address.rs, with no use of the
-- code's tests: which ids, pointers, steps and chains of steps an address is made of.
use rototo.Base.{
  ℕ, ◌≤◌, true, false, List, [], ◌∷◌, Option, none, some, ◌≡◌, ◌≢◌, ◌⊎◌, All, Bytes, join,
}
use rototo.Address.Class.{EntityClass, is_singleton, parent, has_document}
use rototo.Address.Syntax.{StepId, empty, subtree, entity, Step, Address}

-- lowercase, digit or underscore
abbrev pub IsIdByte : ℕ → Type 0
IsIdByte c = ((b'a' ≤ c) × (c ≤ b'z')) ⊎ ((b'0' ≤ c) × (c ≤ b'9')) ⊎ (c ≡ b'_')

abbrev pub IsSegment : Bytes → Type 0
IsSegment s = (s ≢ []) × All IsIdByte s

-- snake_case segments, at least one, joined by `/`
abbrev pub IsId : Bytes → Type 0
IsId id =
    (segments : List Bytes) × (segments ≢ []) × All IsSegment segments × (join b'/' segments ≡ id)

-- every `~` stands before a `0` or a `1` (RFC 6901)
pub data IsEscaped : Bytes → Type 0 where
  done : IsEscaped []
  plain : (c : ℕ) {s : Bytes} → c ≢ b'~' → IsEscaped s → IsEscaped (c ∷ s)
  tilde :
      (c d : ℕ) {s : Bytes}
      → c ≡ b'~'
      → (d ≡ b'0') ⊎ (d ≡ b'1')
      → IsEscaped s
      → IsEscaped (c ∷ d ∷ s)

pub data IsPointer : Bytes → Type 0 where
  whole : IsPointer []
  path : (c : ℕ) {s : Bytes} → c ≡ b'/' → IsEscaped s → IsPointer (c ∷ s)

-- Only the empty id fits a singleton class.
abbrev pub IsStepId : EntityClass → StepId → Type 0
IsStepId class empty = Unit
IsStepId class (subtree prefix) = (is_singleton class ≡ false) × IsId prefix
IsStepId class (entity id) = (is_singleton class ≡ false) × IsId id

abbrev pub IsStep : Step → Type 0
IsStep step = IsStepId step.class step.id

-- One root step, or a child step under a concrete entity of its parent class. The second index is
-- the step that the chain ends in.
pub data Chain : List Step → Step → Type 0 where
  root : (s : Step) → parent s.class ≡ none → Chain (s ∷ []) s
  nested :
      (p s : Step) (id : Bytes)
      → p.id ≡ entity id
      → parent s.class ≡ some p.class
      → Chain (p ∷ s ∷ []) s

-- an entity with a document: a `#` pointer can walk it
abbrev pub IsDocument : Step → Type 0
IsDocument s =
    (has_document s.class ≡ true)
    × (((id : Bytes) × (s.id ≡ entity id)) ⊎ (is_singleton s.class ≡ true))

abbrev pub PointerFits : Step → Option Bytes → Type 0
PointerFits last none = Unit
PointerFits last (some pointer) = IsPointer pointer × IsDocument last

pub record IsAddress (a : Address) : Type 0 where
  pub last : Step
  pub chain : Chain a.steps last
  pub ids : All IsStep a.steps
  pub fits : PointerFits last a.pointer
