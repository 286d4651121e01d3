-- ===== src/Address/Resolve.antt =====
-- `Reference::resolve` of src/address.rs.
use mathlib.Core.Path.{subst}
use rototo.Base.{
  Bool, true, false, List, [], ◌∷◌, ◌++◌, Option, none, some, ◌≡◌, ◌≢◌, inl, inr, refl, sym,
  strip_prefix, Option-cases, Result-cases, arith, ap, All, ok, Bytes, append_assoc, append-nil,
}
use rototo.Address.Class.{is_singleton}
use rototo.Address.Syntax.{
  validate_id, parse_pointer, cut_pointer, validate_pointer, StepId, empty, subtree, entity, Step,
  Address, last_step, is_entity, validate, display, display_steps, display_pointer, display_step,
  display_id, parse,
}
use rototo.Address.Grammar.{Chain, root, nested, IsStep, IsId, IsPointer, PointerFits, IsAddress}
use rototo.Address.Nesting.{Chain-last_of, validate-IsAddress, IsDocument-of}
use rototo.Address.RoundTrip.{parse-eq-ok, parse-display, fits_of, parse_pointer-eq-ok}
use rototo.Address.Ids.{validate_id-eq-ok, validate_pointer-eq-ok}
use rototo.Address.Reference.{
  parse_marked, parse_reference, is_open_slot, Reference, absolute, fragment_only, bare_id,
  fill_last, resolve,
}

abbrev IsFittingPointer : Option Bytes → Type 0
IsFittingPointer none = Unit
IsFittingPointer (some p) = IsPointer p

-- what `Reference::parse` accepts
abbrev pub IsReference : Reference → Type 0
IsReference (absolute a) = IsAddress a
IsReference (fragment_only p) = IsPointer p
IsReference (bare_id id pointer) = IsId id × IsFittingPointer pointer

fill_last-ids :
    {steps : List Step} {last : Step} (id : Bytes)
    → Chain steps last
    → All IsStep steps
    → is_singleton last.class ≡ false
    → IsId id
    → All IsStep (fill_last steps id)
unfolding fill_last
fill_last-ids id (root s h) ids n i = ((n, i), tt)
fill_last-ids id (nested p s x e h) ids n i = (ids.0, ((n, i), tt))

fill_last_ne_nil :
    {steps : List Step} {last : Step} (id : Bytes) → Chain steps last → fill_last steps id ≢ []
unfolding fill_last
fill_last_ne_nil id (root s h) = λ e. cc
fill_last_ne_nil id (nested p s x e h) = λ e. cc

fill_last-Chain :
    {steps : List Step} {last : Step} (id : Bytes)
    → Chain steps last
    → Chain (fill_last steps id) (record last { id = entity id })
unfolding fill_last
fill_last-Chain id (root s h) = root (record s { id = entity id }) h
fill_last-Chain id (nested p s x e h) = nested p (record s { id = entity id }) x e h

fragment-IsAddress :
    (p : Bytes) (base a : Address)
    → IsPointer p
    → IsAddress base
    → resolve (fragment_only p) base ≡ ok a
    → IsAddress a
unfolding resolve is_entity last_step
fragment-IsAddress p base a hp hb e =
    let ends = Chain-last_of hb.chain in
    let document = IsDocument-of hb.last (ground arith) (ground arith) in
    let same : a ≡ record { steps = base.steps; pointer = some p } = ground arith in
    rw same (record { last = hb.last; chain = hb.chain; ids = hb.ids; fits = (hp, document) })

bare_id-IsAddress :
    (id : Bytes) (p : Option Bytes) (base a : Address)
    → IsId id
    → IsFittingPointer p
    → IsAddress base
    → resolve (bare_id id p) base ≡ ok a
    → IsAddress a
unfolding resolve last_step
bare_id-IsAddress id p base a hi hp hb e =
    let ends = Chain-last_of hb.chain in
    let named : is_singleton hb.last.class ≡ false = ground arith in
    let same : a ≡ record { steps = fill_last base.steps id; pointer = p } = ground arith in
    let valid : validate (record { steps = fill_last base.steps id; pointer = p }) ≡ ok tt =
      ground arith in
    let (last, chain, document) =
      validate-IsAddress (record { steps = fill_last base.steps id; pointer = p })
        (fill_last_ne_nil id hb.chain) valid in
    rw same (record {
      last = last;
      chain = chain;
      ids = fill_last-ids id hb.chain hb.ids named hi;
      fits = fits_of last p (λ q f. (subst IsFittingPointer f hp, document q f));
    })

-- A reference of the grammar resolves against an address of the grammar to another one.
pub resolve-IsAddress :
    (r : Reference) (base a : Address)
    → IsReference r
    → IsAddress base
    → resolve r base ≡ ok a
    → IsAddress a
resolve-IsAddress (absolute b) base a hr hb e =
    let same : b ≡ a = unfold resolve in ground arith in subst IsAddress same hr
resolve-IsAddress (fragment_only p) base a hr hb e = fragment-IsAddress p base a hr hb e
resolve-IsAddress (bare_id id p) base a hr hb e = bare_id-IsAddress id p base a hr.0 hr.1 hb e

-- The reference parser yields only references whose parts fit the grammar.
parse_pointer-fitting :
    (o : Option Bytes) {q : Option Bytes} → parse_pointer o ≡ ok q → IsFittingPointer q
parse_pointer-fitting o {q = none} h = tt
parse_pointer-fitting o {q = some p} h =
    let (same, checked) = parse_pointer-eq-ok o h in checked p (sym same)

parse_marked-IsReference :
    (source path : Bytes) (pointer : Option Bytes) (r : Reference)
    → parse_marked source (path, pointer) ≡ ok r
    → IsReference r
unfolding parse_marked
parse_marked-IsReference source path pointer (absolute a) h =
    (parse-eq-ok source a (ground arith)).0
parse_marked-IsReference source path pointer (fragment_only p) h = absurd (ground arith)
parse_marked-IsReference source path pointer (bare_id id p) h =
    let valid : validate_id path ≡ ok tt = ground arith in
    let same : id ≡ path = ground arith in
    let checked : parse_pointer pointer ≡ ok p = ground arith in
    (rw same (validate_id-eq-ok path valid), parse_pointer-fitting pointer checked)

pub parse_reference-IsReference :
    (source : Bytes) (r : Reference) → parse_reference source ≡ ok r → IsReference r
unfolding parse_reference
parse_reference-IsReference source r h = elim (Option-cases (strip_prefix source (b'#' ∷ []))) [
  | inl e ↦
      parse_marked-IsReference source (cut_pointer source).0 (cut_pointer source).1 r (ground arith)
  | inr (p, e) ↦ elim (Result-cases (validate_pointer p)) [
    | inl (q, f) ↦
        let (copied, fits) = validate_pointer-eq-ok p f in
        let same : fragment_only p ≡ r = ground arith in subst IsReference same fits
    | inr (q, f) ↦ absurd (ground arith)
  ]
]

-- If a base text parses, a reference text parses, and the reference resolves against the base,
-- then the resolved address parses back from its printed form.
pub resolve-parse :
    (base_text text : Bytes) (base a : Address) (r : Reference)
    → parse base_text ≡ ok base
    → parse_reference text ≡ ok r
    → resolve r base ≡ ok a
    → parse (display a) ≡ ok a
resolve-parse base_text text base a r hb hr h = parse-display a (
    resolve-IsAddress r base a (parse_reference-IsReference text r hr)
      (parse-eq-ok base_text base hb).0 h)

-- An open slot has no document, so its address has no pointer.
open_pointer :
    (last : Step) (o : Option Bytes)
    → is_open_slot last.id ≡ true
    → is_singleton last.class ≡ false
    → PointerFits last o
    → o ≡ none
open_pointer last none h n f = refl
open_pointer last (some p) h n (f, (d, inl (i, e))) = absurd (ground arith)
open_pointer last (some p) h n (f, (d, inr e)) = absurd (cc)

display_id_open : (i : StepId) → is_open_slot i ≡ true → display_id i ≡ []
unfolding display_id
display_id_open empty h = refl
display_id_open (subtree p) h = absurd (ground arith)
display_id_open (entity i) h = absurd (ground arith)

display_step-fill :
    (s : Step) (id : Bytes)
    → is_open_slot s.id ≡ true
    → display_step (record s { id = entity id }) ≡ display_step s ++ id
unfolding display_step
display_step-fill s id h = rw (display_id_open s.id h, append_assoc) (unfold display_id in refl)

display_steps-fill_last :
    {steps : List Step} {last : Step} (later : Bool) (id : Bytes)
    → Chain steps last
    → is_open_slot last.id ≡ true
    → display_steps later (fill_last steps id) ≡ display_steps later steps ++ id
unfolding display_steps fill_last
display_steps-fill_last later id (root s h) o =
    simp (display_step-fill s id o, append-nil, append_assoc)
display_steps-fill_last later id (nested p s x e h) o =
    simp (display_step-fill s id o, append-nil, append_assoc)

no_pointer : (text : Bytes) (o : Option Bytes) → o ≡ none → text ++ display_pointer o ≡ text
unfolding display_pointer
no_pointer text none h = append-nil text
no_pointer text (some p) h = cc

-- If a bare id resolves against a base that follows the grammar, then the printed result is the
-- printed base followed by the id and the pointer.
pub display-resolve_bare_id :
    (id : Bytes) (p : Option Bytes) (base a : Address)
    → IsAddress base
    → resolve (bare_id id p) base ≡ ok a
    → display a ≡ display base ++ (id ++ display_pointer p)
unfolding resolve last_step display
display-resolve_bare_id id p base a hb e =
    let ends = Chain-last_of hb.chain in
    let opened : is_open_slot hb.last.id ≡ true = ground arith in
    let named : is_singleton hb.last.class ≡ false = ground arith in
    let same : a ≡ record { steps = fill_last base.steps id; pointer = p } = ground arith in
    let bare = open_pointer hb.last base.pointer opened named hb.fits in
    rw same (
      rw (display_steps-fill_last false id hb.chain opened, append_assoc)
        (ap (λ t. t ++ (id ++ display_pointer p))
          (sym (no_pointer (display_steps false base.steps) base.pointer bare))))
