-- ===== src/Layer/Shapes.antt =====
-- Paths in one directory stand in one place, and ids of files with one stem are the same.
use rototo.Base.{
  Bool, true, false, ◌&&◌, not, [], ◌∷◌, ◌++◌, Option, none, some, ◌≡◌, refl, sym, ap, ◌∙◌, arith,
  if◌then◌else◌, Bytes, codes, text_eq, text_eq-eq, text_eq_refl, strip_suffix, strip_suffix-append,
  strip_suffix-eq-some, ends_with, join, is_empty, append_assoc,
}
use rototo.Layer.Files.{FilePath, below}
use rototo.Layer.Places.{
  Place, place, place_model, place_data, place_entry, in_entries, in_lists, in_variables,
  split_last, namespaced, variable_id_for_relative, toml_stem, without, slash, toml_suffix,
}
use rototo.Layer.Landing.{beside}
use rototo.Layer.Markers.{split_last-beside}

-- a suffix that ends in `.toml`
pub marked-toml :
    (name r mid : Bytes)
    → strip_suffix name (mid ++ toml_suffix) ≡ some r
    → strip_suffix name toml_suffix ≡ some (r ++ mid)
marked-toml name r mid h =
    let whole = strip_suffix-eq-some name (mid ++ toml_suffix) r h in
    rw (whole, sym (append_assoc r mid toml_suffix)) (strip_suffix-append (r ++ mid) toml_suffix)

pub place-entries :
    (dirs : FilePath) (n k : Bytes) (middle : FilePath) (last : Bytes)
    → place (beside dirs n) ≡ in_entries middle last
    → place (beside dirs k) ≡ in_entries middle k
unfolding place place_model place_data split_last
place-entries [] n k middle last h = ground arith
place-entries (a ∷ []) n k middle last h = ground arith
place-entries (a ∷ b ∷ []) n k middle last h = ground arith
place-entries (a ∷ b ∷ c ∷ dirs) n k middle last h =
    ground (arith, split_last-beside (c ∷ dirs) n, split_last-beside (c ∷ dirs) k)

abbrev is_list : Place → Bool
is_list (in_lists rest) = true
is_list _ = false

abbrev is_variable : Place → Bool
is_variable (in_variables rest) = true
is_variable _ = false

other_entry :
    (o : Option (FilePath × Bytes))
    → (is_list (place_entry o) ≡ false) × (is_variable (place_entry o) ≡ false)
other_entry none = (refl, refl)
other_entry (some ([], name)) = (refl, refl)
other_entry (some (dir ∷ dirs, name)) = (refl, refl)

other_model :
    (r : FilePath) → (is_list (place_model r) ≡ false) × (is_variable (place_model r) ≡ false)
unfolding place_model
other_model [] = (refl, refl)
other_model (a ∷ r) = (ground arith, ground arith)

other_data :
    (r : FilePath) → (is_list (place_data r) ≡ false) × (is_variable (place_data r) ≡ false)
unfolding place_data
other_data [] = (refl, refl)
other_data (a ∷ r) =
    let (l, v) = other_entry (split_last r) in (ground (arith, l), ground (arith, v))

-- A path with lists in its place has a directory, which tells that place.
pub place-lists :
    (dirs : FilePath) (n : Bytes) (next : Bytes) (rest : FilePath)
    → place (beside dirs n) ≡ in_lists (next ∷ rest)
    → (d : FilePath) × (next ∷ rest ≡ beside d n)
      × ((k : Bytes) → place (beside dirs k) ≡ in_lists (beside d k))
unfolding place
place-lists [] n next rest h = ground arith
place-lists (a ∷ d) n next rest h =
    let inside : is_list (place (beside (a ∷ d) n)) ≡ true = ap is_list h in
    let first : text_eq a (codes "lists") ≡ true =
      ground (arith, inside, (other_model (beside d n)).0, (other_data (beside d n)).0) in
    (d, ground (arith, h, first), λ k. rw first refl)

pub place-variables :
    (dirs : FilePath) (n : Bytes) (next : Bytes) (rest : FilePath) (stem : Bytes)
    → place (beside dirs n) ≡ in_variables (next ∷ rest)
    → toml_stem n ≡ some stem
    → (id : Bytes) × (variable_id_for_relative (beside dirs n) ≡ some id)
unfolding place variable_id_for_relative below
place-variables [] n next rest stem h t = ground arith
place-variables (a ∷ d) n next rest stem h t =
    let inside : is_variable (place (beside (a ∷ d) n)) ≡ true = ap is_variable h in
    let first : text_eq a (codes "variables") ≡ true =
      ground (arith, inside, (other_model (beside d n)).1, (other_data (beside d n)).1) in
    let same = text_eq-eq a (codes "variables") first in
    let flipped : text_eq (codes "variables") a ≡ true =
      rw same (text_eq_refl (codes "variables")) in
    (
      without (join b'/' (d ++ stem ∷ [])) (codes ".update"),
      ground (arith, flipped, split_last-beside d n, t),
    )

-- the id of a file is that of its stem, whatever the suffix
abbrev pub id_of : Bytes → Option Bytes
id_of id = if not (is_empty id) && not (ends_with id slash) then some id else none

join-beside :
    (d : FilePath) (s x : Bytes) → join b'/' (beside d (s ++ x)) ≡ join b'/' (beside d s) ++ x
unfolding join
join-beside [] s x = refl
join-beside (a ∷ []) s x = sym (append_assoc a (b'/' ∷ s) x)
join-beside (a ∷ b ∷ d) s x =
    ap (λ t. a ++ b'/' ∷ t) (join-beside (b ∷ d) s x)
    ∙ sym (append_assoc a (b'/' ∷ join b'/' (beside (b ∷ d) s)) x)

pub namespaced-beside :
    (d : FilePath) (s x : Bytes) → namespaced (beside d (s ++ x)) x ≡ id_of (join b'/' (beside d s))
unfolding namespaced
namespaced-beside d s x =
    rw (namespaced, join-beside d s x, strip_suffix-append (join b'/' (beside d s)) x) refl
