-- ===== src/Address/RoundTrip.antt =====
-- `Address::parse` of src/address.rs against `Display` and the grammar.
use mathlib.Core.Path.{subst}
use rototo.Base.{
  false, List, [], ◌∷◌, ◌++◌, Option, none, some, ◌≡◌, ◌≢◌, ◌↔◌, refl, sym, ◌∙◌, arith, append-nil,
  is_empty, ok, Bytes, Lacks, split_once, split, join, split_once-append, split_once-Lacks,
  split_once-eq-some, Option-cases, Result-cases, inl, inr,
}
use rototo.Address.Syntax.{
  Step, Address, parse_steps, validate_pointer, validate, parse_pointer, cut_pointer, parse_parts,
  parse, display_pointer, display,
}
use rototo.Address.Grammar.{IsPointer, IsDocument, PointerFits, IsAddress}
use rototo.Address.Ids.{validate_pointer-eq-ok, IsPointer-validate_pointer}
use rototo.Address.Steps.{
  spelled, display_steps-spelled, parse_steps-spelled, spelled-Lacks_hash, spelled_ne_nil,
  spelled-parse_steps,
}
use rototo.Address.Nesting.{validate-IsAddress, IsAddress-validate, Chain-ne_nil}

cut_pointer-spelled :
    (path : Bytes) (pointer : Option Bytes)
    → Lacks b'#' path
    → cut_pointer (path ++ display_pointer pointer) ≡ (path, pointer)
unfolding cut_pointer display_pointer
cut_pointer-spelled path none h = rw append-nil (rw (split_once-Lacks b'#' path h, cut_pointer))
cut_pointer-spelled path (some p) h = rw (split_once-append b'#' path p h, cut_pointer)

-- The two parts of a source spell it.
spelled-cut_pointer :
    (source : Bytes) → (cut_pointer source).0 ++ display_pointer (cut_pointer source).1 ≡ source
unfolding display_pointer cut_pointer
spelled-cut_pointer source = elim (Option-cases (split_once b'#' source)) [
  | inl e ↦ rw (e, cut_pointer) (append-nil source)
  | inr ((path, pointer), e) ↦
      rw (e, cut_pointer) (sym (split_once-eq-some b'#' source path pointer e).0)
]

parse_pointer-fits :
    (last : Step) (pointer : Option Bytes)
    → PointerFits last pointer
    → parse_pointer pointer ≡ ok pointer
unfolding parse_pointer
parse_pointer-fits last none f = refl
parse_pointer-fits last (some p) f = rw (IsPointer-validate_pointer f.0)

-- Every address of the grammar is read back from its text.
pub parse-display : (a : Address) → IsAddress a → parse (display a) ≡ ok a
unfolding parse display parse_parts
parse-display a v = rw (
  display_steps-spelled a.steps,
  cut_pointer-spelled (spelled a.steps) a.pointer (spelled-Lacks_hash a.steps v.ids),
  spelled_ne_nil a.steps (Chain-ne_nil v.chain),
  parse_steps-spelled a.steps (Chain-ne_nil v.chain) v.ids,
  parse_pointer-fits v.last a.pointer v.fits,
  IsAddress-validate a.steps a.pointer v.chain v.fits,
)

pub parse_pointer-eq-ok :
    (o : Option Bytes) {q : Option Bytes}
    → parse_pointer o ≡ ok q
    → (q ≡ o) × ((p : Bytes) → o ≡ some p → IsPointer p)
unfolding parse_pointer
parse_pointer-eq-ok none h = (ground arith, λ p e. absurd (ground arith))
parse_pointer-eq-ok (some p) h = elim (Result-cases (validate_pointer p)) [
  | inl (q, e) ↦
      let (same, fits) = validate_pointer-eq-ok p e in
      (ground arith, λ r f. subst IsPointer (ground arith) fits)
  | inr (q, e) ↦ absurd (ground arith)
]

some_steps :
    (steps : List Step) (path : Bytes) → spelled steps ≡ path → is_empty path ≡ false → steps ≢ []
unfolding spelled join
some_steps [] path e h = absurd (subst (λ p. is_empty p ≡ false → ⊥) e (λ x. cc) h)
some_steps (s ∷ steps) path e h = λ n. cc

pub fits_of :
    (last : Step) (o : Option Bytes)
    → ((p : Bytes) → o ≡ some p → IsPointer p × IsDocument last)
    → PointerFits last o
fits_of last none h = tt
fits_of last (some p) h = h p refl

-- Accepted parts are an address of the grammar, and are its text.
parse_parts-eq-ok :
    (path : Bytes) (pointer : Option Bytes) (a : Address)
    → parse_parts path pointer ≡ ok a
    → IsAddress a × (display a ≡ path ++ display_pointer pointer)
parse_parts-eq-ok path pointer a h =
    let some_path : is_empty path ≡ false = unfold parse_parts in ground arith in
    let read : parse_steps (split b':' path) ≡ ok a.steps = unfold parse_parts in ground arith in
    let pointed : parse_pointer pointer ≡ ok a.pointer = unfold parse_parts in ground arith in
    let valid : validate a ≡ ok tt = unfold parse_parts in ground arith in
    let (ids, spelt) = spelled-parse_steps path a.steps read in
    let (same, checked) = parse_pointer-eq-ok pointer pointed in
    let (last, chain, document) =
      validate-IsAddress a (some_steps a.steps path spelt some_path) valid in
    (
      record {
        last = last;
        chain = chain;
        ids = ids;
        fits = fits_of last a.pointer (λ p e. (checked p (sym same ∙ e), document p e));
      },
      unfold display in rw (display_steps-spelled a.steps, spelt, same),
    )

-- An accepted source is an address of the grammar, and is its text.
pub parse-eq-ok :
    (source : Bytes) (a : Address) → parse source ≡ ok a → IsAddress a × (display a ≡ source)
parse-eq-ok source a h =
    let (path, pointer) = cut_pointer source in
    let (fits, shown) = parse_parts-eq-ok path pointer a (unfold parse in h) in
    (fits, shown ∙ spelled-cut_pointer source)

-- A source parses to an address exactly when the address follows the grammar (a root step, or a
-- child step under a concrete entity of its parent class; well-formed ids; a pointer only at a
-- document) and the source is its printed form; so parsing and printing are inverse to one
-- another.
pub parse_iff :
    (source : Bytes) (a : Address) → (parse source ≡ ok a) ↔ (IsAddress a × (display a ≡ source))
parse_iff source a = (parse-eq-ok source a, λ (f, e). rw (← e) (parse-display a f))
