-- ===== src/Address/Steps.antt =====
-- One step of src/address.rs, and a chain of steps behind `split(':')`: `parse_step` against `Display`.
use rototo.Base.{
  ℕ, true, false, List, [], ◌∷◌, ◌++◌, Option, none, some, ◌≡◌, ◌≢◌, refl, sym, ap, arith,
  append-nil, map, is_empty, All, All-append, ok, Bytes, Lacks, split_once, split, join,
  split_once-append, join-All, split_once-eq-some, split-join, join-split, strip_suffix,
  strip_suffix-append, strip_suffix-eq-some, Option-cases, inl, inr,
}
use rototo.Address.Class.{
  EntityClass, as_str, parse_name, is_singleton, parse_name-as_str, parse_name-eq-some,
  as_str-Lacks_hash, as_str-Lacks_colon, as_str-Lacks_equals,
}
use rototo.Address.Syntax.{
  StepId, empty, subtree, entity, Step, parse_step_id, parse_step, parse_steps, display_id,
  display_step, display_steps, id_of_suffix,
}
use rototo.Address.Grammar.{IsId, IsStepId, IsStep}
use rototo.Address.Ids.{
  validate_id-eq-ok, IsId-validate_id, IsId-ne_nil, IsId-Lacks_hash, IsId-Lacks_colon,
  strip_suffix-IsId,
}

-- The id slot of a step that fits its class is read back.
parse_step_id-display_id :
    (c : EntityClass) (id : StepId) → IsStepId c id → parse_step_id c (display_id id) ≡ ok id
unfolding parse_step_id display_id
parse_step_id-display_id c empty h = refl
parse_step_id-display_id c (subtree []) (s, h) = absurd (ground (arith, IsId-ne_nil [] h))
parse_step_id-display_id c (subtree (b ∷ p)) (s, h) =
    rw (s, strip_suffix-append (b ∷ p) (b'/' ∷ []), IsId-validate_id (b ∷ p) h)
parse_step_id-display_id c (entity []) (s, h) = absurd (ground (arith, IsId-ne_nil [] h))
parse_step_id-display_id c (entity (b ∷ id)) (s, h) =
    rw (s, strip_suffix-IsId (b ∷ id) h, IsId-validate_id (b ∷ id) h)

id_of_suffix-eq-ok :
    (c : EntityClass) (text : Bytes) (o : Option Bytes) (id : StepId)
    → is_singleton c ≡ false
    → strip_suffix text (b'/' ∷ []) ≡ o
    → id_of_suffix c text o ≡ ok id
    → IsStepId c id × (display_id id ≡ text)
unfolding id_of_suffix display_id
id_of_suffix-eq-ok c text none empty s e h = absurd (ground arith)
id_of_suffix-eq-ok c text none (subtree q) s e h = absurd (ground arith)
id_of_suffix-eq-ok c text none (entity i) s e h =
    let same : i ≡ text = ground arith in
    ((s, rw same (validate_id-eq-ok text (ground arith))), same)
id_of_suffix-eq-ok c text (some p) empty s e h = absurd (ground arith)
id_of_suffix-eq-ok c text (some p) (entity i) s e h = absurd (ground arith)
id_of_suffix-eq-ok c text (some p) (subtree q) s e h =
    let same : q ≡ p = ground arith in
    (
      (s, rw same (validate_id-eq-ok p (ground arith))),
      rw same (sym (strip_suffix-eq-some text (b'/' ∷ []) p e)),
    )

parse_step_id-eq-ok :
    (c : EntityClass) (text : Bytes) (id : StepId)
    → parse_step_id c text ≡ ok id
    → IsStepId c id × (display_id id ≡ text)
parse_step_id-eq-ok c [] empty h = (tt, unfold display_id in refl)
parse_step_id-eq-ok c [] (subtree p) h = absurd (unfold parse_step_id in ground arith)
parse_step_id-eq-ok c [] (entity i) h = absurd (unfold parse_step_id in ground arith)
parse_step_id-eq-ok c (b ∷ text) id h =
    unfold parse_step_id in
    id_of_suffix-eq-ok c (b ∷ text) (strip_suffix (b ∷ text) (b'/' ∷ [])) id (ground arith) refl
      (ground arith)

-- A step that fits the grammar is read back from what is written of it.
parse_step-display_step : (s : Step) → IsStep s → parse_step (display_step s) ≡ ok s
unfolding parse_step display_step
parse_step-display_step s h = rw (
  split_once-append b'=' (as_str s.class) (display_id s.id) (as_str-Lacks_equals s.class),
  parse_name-as_str s.class,
  parse_step_id-display_id s.class s.id h,
)

-- A step that is read fits the grammar, and is written as it was.
parse_step-eq-ok :
    (text : Bytes) (s : Step) → parse_step text ≡ ok s → IsStep s × (display_step s ≡ text)
unfolding parse_step display_step
parse_step-eq-ok text s h = elim (Option-cases (split_once b'=' text)) [
  | inl e ↦ absurd (ground arith)
  | inr ((name, slot), cut) ↦ elim (Option-cases (parse_name name)) [
    | inl e ↦ absurd (ground arith)
    | inr (c, named) ↦
        let class : parse_name name ≡ some s.class = ground arith in
        let read : parse_step_id s.class slot ≡ ok s.id = ground arith in
        let (fits, shown) = parse_step_id-eq-ok s.class slot s.id read in
        let (whole, lacks) = split_once-eq-some b'=' text name slot cut in
        (fits, rw (shown, parse_name-eq-some name s.class class) (sym whole))
  ]
]

-- the steps joined by `:`
unfoldable pub spelled : List Step → Bytes
spelled steps = join b':' (map display_step steps)

pub parse_steps-map :
    (steps : List Step) → All IsStep steps → parse_steps (map display_step steps) ≡ ok steps
unfolding parse_steps
parse_steps-map [] h = refl
parse_steps-map (s ∷ steps) (hs, h) = rw (parse_step-display_step s hs, parse_steps-map steps h)

pub parse_steps-eq-ok :
    (texts : List Bytes) (steps : List Step)
    → parse_steps texts ≡ ok steps
    → All IsStep steps × (map display_step steps ≡ texts)
unfolding parse_steps
parse_steps-eq-ok [] [] h = (tt, refl)
parse_steps-eq-ok [] (s ∷ steps) h = absurd (ground arith)
parse_steps-eq-ok (t ∷ texts) [] h = absurd (ground arith)
parse_steps-eq-ok (t ∷ texts) (s ∷ steps) h =
    let (fits, shown) = parse_step-eq-ok t s (ground arith) in
    let (all_fit, all_shown) = parse_steps-eq-ok texts steps (ground arith) in
    ((fits, all_fit), ground arith)

-- What `Display` writes of a chain of steps.
display_later :
    (s : Step) (steps : List Step) → display_steps true (s ∷ steps) ≡ b':' ∷ spelled (s ∷ steps)
unfolding display_steps spelled join
display_later s [] = rw append-nil
display_later s (t ∷ steps) = ap (λ r. b':' ∷ (display_step s ++ r)) (display_later t steps)

pub display_steps-spelled : (steps : List Step) → display_steps false steps ≡ spelled steps
unfolding display_steps spelled join
display_steps-spelled [] = refl
display_steps-spelled (s ∷ []) = rw append-nil
display_steps-spelled (s ∷ t ∷ steps) = ap (λ r. display_step s ++ r) (display_later t steps)

display_step-Lacks :
    (b : ℕ)
    → ((c : EntityClass) → Lacks b (as_str c))
    → b'=' ≢ b
    → b'/' ≢ b
    → ((id : Bytes) → IsId id → Lacks b id)
    → (s : Step) → IsStep s
    → Lacks b (display_step s)
display_step-Lacks b name equals slash ids s h =
    unfold display_step in
    All-append (λ c. c ≢ b) (as_str s.class) _ (name s.class) (equals, slot s.class s.id h)
  where
    slot : (c : EntityClass) (id : StepId) → IsStepId c id → Lacks b (display_id id)
    slot c empty f = unfold display_id in tt
    slot c (subtree p) (n, f) =
        unfold display_id in All-append (λ x. x ≢ b) p (b'/' ∷ []) (ids p f) (slash, tt)
    slot c (entity i) (n, f) = unfold display_id in ids i f

steps-Lacks :
    (b : ℕ)
    → ((s : Step) → IsStep s → Lacks b (display_step s))
    → (steps : List Step) → All IsStep steps
    → All (Lacks b) (map display_step steps)
steps-Lacks b f [] h = tt
steps-Lacks b f (s ∷ steps) (hs, h) = (f s hs, steps-Lacks b f steps h)

-- A chain of steps that fit the grammar is read back from its text.
pub parse_steps-spelled :
    (steps : List Step)
    → steps ≢ []
    → All IsStep steps
    → parse_steps (split b':' (spelled steps)) ≡ ok steps
unfolding spelled
parse_steps-spelled [] ne h = absurd (ne refl)
parse_steps-spelled (s ∷ steps) ne h =
    rw
      (split-join b':' (map display_step (s ∷ steps)) (λ e. cc)
        (steps-Lacks b':'
          (display_step-Lacks b':' as_str-Lacks_colon (omega arith) (omega arith) IsId-Lacks_colon)
          (s ∷ steps) h))
      (parse_steps-map (s ∷ steps) h)

-- The pointer mark does not occur in the steps.
pub spelled-Lacks_hash : (steps : List Step) → All IsStep steps → Lacks b'#' (spelled steps)
unfolding spelled
spelled-Lacks_hash steps h =
    join-All (λ c. c ≢ b'#') b':' (map display_step steps) (omega arith)
      (steps-Lacks b'#'
        (display_step-Lacks b'#' as_str-Lacks_hash (omega arith) (omega arith) IsId-Lacks_hash)
        steps h)

append_ne_nil : (a : Bytes) (b : ℕ) (c : Bytes) → is_empty (a ++ b ∷ c) ≡ false
append_ne_nil [] b c = refl
append_ne_nil (x ∷ a) b c = refl

-- A text with steps in it is not empty.
pub spelled_ne_nil : (steps : List Step) → steps ≢ [] → is_empty (spelled steps) ≡ false
unfolding spelled join display_step
spelled_ne_nil [] ne = absurd (ne refl)
spelled_ne_nil (s ∷ []) ne = append_ne_nil (as_str s.class) b'=' (display_id s.id)
spelled_ne_nil (s ∷ t ∷ steps) ne = append_ne_nil (display_step s) b':' (spelled (t ∷ steps))

-- The steps that are read from a text spell it.
pub spelled-parse_steps :
    (text : Bytes) (steps : List Step)
    → parse_steps (split b':' text) ≡ ok steps
    → All IsStep steps × (spelled steps ≡ text)
unfolding spelled
spelled-parse_steps text steps h =
    let (fits, shown) = parse_steps-eq-ok (split b':' text) steps h in
    (fits, rw shown (join-split b':' text))
