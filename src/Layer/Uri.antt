-- ===== src/Layer/Uri.antt =====
-- src/source/uri.rs: `SourceUri`, and the test of relative paths of src/source/path.rs.
use rototo.Base.{
  Bool, false, ◌&&◌, ◌||◌, not, List, [], ◌∷◌, Option, none, some, if◌then◌else◌, Result, ok, err,
  ℕ, ◌+◌, leb, ◌==◌, map, all, is_empty, Bytes, codes, text_eq, split_once, strip_prefix, split,
}

pub record SourceUri : Type 0 where
  pub scheme : Bytes
  pub base : Bytes
  pub reference : Option Bytes
  pub subdir : Option Bytes

-- `text.split_once(pattern)`
unfoldable pub split_once_text : Bytes → Bytes → Option (Bytes × Bytes)
unfolding strip_prefix
split_once_text pattern [] = none
split_once_text pattern (c ∷ s) = elim (strip_prefix (c ∷ s) pattern) [
  | some rest ↦ some ([], rest)
  | none ↦ elim (split_once_text pattern s) [
    | none ↦ none
    | some (before, behind) ↦ some (c ∷ before, behind)
  ]
]

-- `to_ascii_lowercase` of a byte
unfoldable pub lower : ℕ → ℕ
lower c = if leb b'A' c && leb c b'Z' then c + 32 else c

-- `(!text.is_empty()).then(|| text)`
abbrev pub nonempty : Bytes → Option Bytes
nonempty text = if is_empty text then none else some text

abbrev pub fragment_parts : Option Bytes → Option Bytes × Option Bytes
fragment_parts none = (none, none)
fragment_parts (some fragment) = elim (split_once b':' fragment) [
  | some (reference, subdir) ↦ (nonempty reference, nonempty subdir)
  | none ↦ (nonempty fragment, none)
]

abbrev pub cut_fragment : Bytes → Bytes × Option Bytes
cut_fragment rest = elim (split_once b'#' rest) [
  | some (base, fragment) ↦ (base, some fragment)
  | none ↦ (rest, none)
]

-- `SourceUri::parse`; the error is its source
unfoldable pub parse_uri : Bytes → Result Bytes (Option SourceUri)
unfolding split_once_text lower split_once
parse_uri source = elim (split_once_text (codes "://") source) [
  | none ↦ ok none
  | some (scheme, rest) ↦
      let (base, fragment) = cut_fragment rest in
      let (reference, subdir) = fragment_parts fragment in
      if is_empty scheme || is_empty rest || is_empty base
      then err source
      else ok (
          some (record {
            scheme = map lower scheme;
            base = base;
            reference = reference;
            subdir = subdir;
          }))
]

-- `path.is_absolute()`
abbrev pub is_absolute : Bytes → Bool
is_absolute [] = false
is_absolute (c ∷ path) = c == b'/'

-- `Component::Normal`, behind the first name: an empty name and `.` are no components there
abbrev pub is_normal : Bytes → Bool
is_normal name = not (text_eq name (codes ".."))

abbrev pub is_first_normal : List Bytes → Bool
is_first_normal [] = false
is_first_normal (name ∷ names) = not (text_eq name (codes "."))

unfoldable pub relative_path_is_safe : Bytes → Bool
unfolding split all
relative_path_is_safe path =
    not (is_empty path)
    && not (is_absolute path)
    && is_first_normal (split b'/' path)
    && all is_normal (split b'/' path)
