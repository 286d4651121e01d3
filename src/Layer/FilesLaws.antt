-- ===== src/Layer/FilesLaws.antt =====
-- What a path of a projection holds behind each change.
use rototo.Base.{
  true, false, [], ◌∷◌, none, some, ◌≡◌, refl, ◌↔◌, arith, inl, inr, Bool-cases, if◌then◌else◌,
  text_eq_iff,
}
use rototo.Layer.Files.{
  FilePath, same_path, is_below, Entry, Files, at, remove_file, put, remove_folder,
}

pub same_path_iff : (p q : FilePath) → (same_path p q ≡ true) ↔ (p ≡ q)
unfolding same_path
same_path_iff (x ∷ p) (y ∷ q) = ground (arith, text_eq_iff x y, same_path_iff p q)
same_path_iff _ _ = ground arith

pub same_path-eq : (p q : FilePath) → same_path p q ≡ true → p ≡ q
same_path-eq p q = (same_path_iff p q).0

pub same_path_refl : (p : FilePath) → same_path p p ≡ true
same_path_refl p = (same_path_iff p p).1 refl

same_path-same : (r q p : FilePath) → same_path r q ≡ true → same_path r p ≡ same_path q p
same_path-same r q p h = let same = same_path-eq r q h in rw same

pub at-remove_file :
    (files : Files) (q p : FilePath)
    → same_path q p ≡ false
    → at (remove_file files q) p ≡ at files p
unfolding at remove_file
at-remove_file [] q p h = refl
at-remove_file ((r, e) ∷ files) q p h =
    ground (arith, at-remove_file files q p h, same_path-same r q p)

pub at-put :
    (files : Files) (q p : FilePath) (e : Entry)
    → at (put files q e) p ≡ (if same_path q p then some e else at files p)
unfolding at put
at-put files q p e = elim (Bool-cases (same_path q p)) [
  | inl h ↦ rw h
  | inr h ↦ rw h (at-remove_file files q p h)
]

is_below-same : (q r p : FilePath) → same_path r p ≡ true → is_below q r ≡ is_below q p
is_below-same q r p h = let same = same_path-eq r p h in rw same

pub at-remove_folder :
    (files : Files) (q p : FilePath)
    → is_below q p ≡ false
    → at (remove_folder files q) p ≡ at files p
unfolding at remove_folder
at-remove_folder [] q p h = refl
at-remove_folder ((r, e) ∷ files) q p h =
    ground (arith, at-remove_folder files q p h, is_below-same q r p)

pub at-remove_folder_below :
    (files : Files) (q p : FilePath) → is_below q p ≡ true → at (remove_folder files q) p ≡ none
unfolding at remove_folder
at-remove_folder_below [] q p h = refl
at-remove_folder_below ((r, e) ∷ files) q p h =
    ground (arith, at-remove_folder_below files q p h, is_below-same q r p)
