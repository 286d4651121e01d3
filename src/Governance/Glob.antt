-- ===== src/Governance/Glob.antt =====
-- src/source/governance.rs, `glob_match`: `*` matches any run of bytes, all else is literal.
-- A position in the value is the text that is left behind it.
use rototo.Base.{
  ℕ, Bool, true, false, List, [], ◌∷◌, ◌++◌, Option, none, some, ◌≡◌, ◌≢◌, is_empty, ◌||◌, Bytes,
  split, strip_prefix, ends_with, text_eq,
}

-- `text.find(part)`, as the text behind the first occurrence
unfoldable pub find_after : Bytes → Bytes → Option Bytes
find_after [] part = strip_prefix [] part
find_after (c ∷ s) part = elim (strip_prefix (c ∷ s) part) [
  | some rest ↦ some rest
  | none ↦ find_after s part
]

-- the loop over the parts behind the first; `rest` is `value[position..]`. `none` is `return false`.
unfoldable pub match_parts : Bytes → List Bytes → Option Bytes
match_parts rest [] = some rest
match_parts rest (part ∷ parts) = elim (is_empty part) [
  | true ↦ match_parts rest parts
  | false ↦ elim (find_after rest part) [ none ↦ none | some behind ↦ match_parts behind parts ]
]

-- `last` behind the loop
unfoldable pub last_part : List Bytes → Option Bytes
last_part [] = none
last_part (part ∷ []) = some part
last_part (part ∷ next ∷ parts) = last_part (next ∷ parts)

-- the `match last` at the end
unfoldable pub closes : Bytes → Bytes → Option Bytes → Bool
closes pattern value none = text_eq pattern value
closes pattern value (some last) = is_empty last || ends_with value last

unfoldable pub match_split : Bytes → Bytes → List Bytes → Bool
match_split pattern value [] = text_eq pattern value
match_split pattern value (first ∷ parts) = elim (strip_prefix value first) [
  | none ↦ false
  | some rest ↦ elim (match_parts rest parts) [
    | none ↦ false
    | some left ↦ closes pattern value (last_part parts)
  ]
]

unfoldable pub glob_match : Bytes → Bytes → Bool
glob_match pattern value = match_split pattern value (split b'*' pattern)

-- The meaning of a pattern: a byte matches itself, and a star any run of bytes.
pub data Matches : Bytes → Bytes → Type 0 where
  done : Matches [] []
  literal : (c : ℕ) {p v : Bytes} → c ≢ b'*' → Matches p v → Matches (c ∷ p) (c ∷ v)
  star :
      (c : ℕ) (run : Bytes) {p v w : Bytes}
      → c ≡ b'*'
      → w ≡ run ++ v
      → Matches p v
      → Matches (c ∷ p) w
