-- ===== src/Address/Tests.antt =====
-- Runs of src/address.rs at the addresses of its own tests, and the theorems at concrete inputs.
use rototo.Base.{
  true, ◌∷◌, [], ◌++◌, some, none, ◌≡◌, ◌↔◌, refl, ok, err, Bytes, codes, split, Result, split_once,
  strip_suffix, all, text_eq, strip_prefix, contains_byte,
}
use rototo.Address.Class.{
  EntityClass-discrete, as_str, is_package, catalog, entry, parse_name, is_singleton, parent,
  has_document,
}
use rototo.Address.Syntax.{
  AddressError, id_of_suffix, Address, empty, entity, parse, parse_parts, parse_steps, parse_step,
  parse_step_id, validate, validate_steps, check_nesting, check_parent, same_class,
  check_pointer_target, is_entity, last_step, last_of, step_is_entity, parse_pointer,
  validate_pointer, check_escapes, peeks_escape, cut_pointer, validate_id, is_valid_entity_id,
  is_id_segment, is_id_byte, display, cannot_start, display_pointer,
}
use rototo.Address.Grammar.{IsAddress, IsId}
use rototo.Address.Ids.{is_valid_entity_id_iff}
use rototo.Address.RoundTrip.{parse_iff, parse-eq-ok}
use rototo.Address.Reference.{
  parse_marked, fill_last, parse_reference, resolve, bare_id, depth, collective,
}
use rototo.Address.Resolve.{resolve-parse, display-resolve_bare_id}

abbrev slot_text : Bytes
slot_text = codes "catalog=email_template:entry="

abbrev slot : Address
slot = record {
  steps =
      record { class = catalog; id = entity (codes "email_template") }
      ∷ record { class = entry; id = empty }
      ∷ [];
  pointer = none;
}

abbrev welcome : Address
welcome = record {
  steps =
      record { class = catalog; id = entity (codes "email_template") }
      ∷ record { class = entry; id = entity (codes "welcome") }
      ∷ [];
  pointer = some (codes "/body");
}

-- `parse` with all that it calls open, for the runs below
run_parse : Bytes → Result AddressError Address
unfolding parse parse_parts cut_pointer split_once parse_steps split parse_step parse_name
    parse_step_id is_singleton strip_suffix validate_id is_valid_entity_id all is_id_segment
    is_id_byte parse_pointer validate EntityClass-discrete as_str has_document is_package parent
    check_escapes check_nesting check_parent check_pointer_target id_of_suffix is_entity last_of
    last_step peeks_escape same_class step_is_entity validate_pointer validate_steps text_eq
run_parse = parse

parse-slot : parse slot_text ≡ ok slot
unfolding run_parse
parse-slot = refl

parse_orphan : parse (codes "entry=welcome") ≡ err (cannot_start entry catalog)
unfolding run_parse
parse_orphan = refl

parse-welcome : parse (codes "catalog=email_template:entry=welcome#/body") ≡ ok welcome
unfolding run_parse
parse-welcome = refl

reference_welcome :
    parse_reference (codes "welcome#/body") ≡ ok (bare_id (codes "welcome") (some (codes "/body")))
unfolding run_parse parse_reference parse_marked strip_prefix contains_byte
reference_welcome = refl

resolve-welcome : resolve (bare_id (codes "welcome") (some (codes "/body"))) slot ≡ ok welcome
unfolding run_parse resolve fill_last
resolve-welcome = refl

slot-depth : depth slot ≡ ok collective
unfolding run_parse depth
slot-depth = refl

parse_iff_example :
    (parse (codes "catalog=email_template:entry=welcome#/body") ≡ ok welcome)
    ↔ (IsAddress welcome × (display welcome ≡ codes "catalog=email_template:entry=welcome#/body"))
parse_iff_example = parse_iff (codes "catalog=email_template:entry=welcome#/body") welcome

is_valid_entity_id_iff_example :
    (is_valid_entity_id (codes "payments/max_tokens") ≡ true) ↔ IsId (codes "payments/max_tokens")
is_valid_entity_id_iff_example = is_valid_entity_id_iff (codes "payments/max_tokens")

resolve-parse_example : parse (display welcome) ≡ ok welcome
resolve-parse_example =
    resolve-parse slot_text (codes "welcome#/body") slot welcome
      (bare_id (codes "welcome") (some (codes "/body"))) parse-slot reference_welcome
      resolve-welcome

display-resolve_bare_id_example :
    display welcome ≡ display slot ++ (codes "welcome" ++ display_pointer (some (codes "/body")))
display-resolve_bare_id_example =
    display-resolve_bare_id (codes "welcome") (some (codes "/body")) slot welcome
      (parse-eq-ok slot_text slot parse-slot).0 resolve-welcome
