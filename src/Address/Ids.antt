-- ===== src/Address/Ids.antt =====
-- The id and pointer checks of src/address.rs against the grammar.
use mathlib.Core.Path.{subst}
use rototo.Base.{
  ◌∙◌, All-append_right, split_at_end, strip_suffix, strip_suffix-eq-some, Option-cases, none,
  Bool-cases, ◌==◌, ℕ, true, false, not, ◌&&◌, List, [], ◌∷◌, ◌++◌, ◌≡◌, ◌≢◌, ◌↔◌, inl, inr, refl,
  sym, arith, is_empty, all, All, All-map, All-all, all-All, ok, Bytes, Lacks, split, join,
  split-join, join-split, split_ne_nil, join-All,
}
use rototo.Address.Syntax.{
  is_id_byte, is_id_segment, is_valid_entity_id, validate_id, peeks_escape, check_escapes,
  validate_pointer,
}
use rototo.Address.Grammar.{
  IsIdByte, IsSegment, IsId, IsEscaped, done, plain, tilde, IsPointer, whole, path,
}

pub is_id_byte_iff : (c : ℕ) → (is_id_byte c ≡ true) ↔ IsIdByte c
unfolding is_id_byte
is_id_byte_iff c = ground arith

is_id_segment-IsSegment : (s : Bytes) → is_id_segment s ≡ true → IsSegment s
unfolding is_id_segment
is_id_segment-IsSegment [] h = absurd (ground arith)
is_id_segment-IsSegment (c ∷ s) h =
    (λ e. cc, All-all is_id_byte (λ b. (is_id_byte_iff b).0) (c ∷ s) h)

IsSegment-is_id_segment : (s : Bytes) → IsSegment s → is_id_segment s ≡ true
unfolding is_id_segment
IsSegment-is_id_segment [] h = absurd (h.0 refl)
IsSegment-is_id_segment (c ∷ s) h = all-All is_id_byte (λ b. (is_id_byte_iff b).1) (c ∷ s) h.1

IsIdByte-ne_slash : (c : ℕ) → IsIdByte c → c ≢ b'/'
IsIdByte-ne_slash c h = ground arith

segments-Lacks : (ps : List Bytes) → All IsSegment ps → All (Lacks b'/') ps
segments-Lacks = All-map λ s h. All-map IsIdByte-ne_slash s h.1

join_ne_nil : (ps : List Bytes) → ps ≢ [] → All IsSegment ps → is_empty (join b'/' ps) ≡ false
unfolding join
join_ne_nil [] h hs = absurd (h refl)
join_ne_nil ([] ∷ ps) h hs = absurd (hs.0.0 refl)
join_ne_nil ((c ∷ p) ∷ []) h hs = refl
join_ne_nil ((c ∷ p) ∷ q ∷ ps) h hs = refl

-- The id test accepts exactly the texts that are one or more non-empty segments of lowercase
-- letters, digits and underscores joined by slashes.
pub is_valid_entity_id_iff : (id : Bytes) → (is_valid_entity_id id ≡ true) ↔ IsId id
unfolding is_valid_entity_id
is_valid_entity_id_iff id = (to, from)
  where
    to : not (is_empty id) && all is_id_segment (split b'/' id) ≡ true → IsId id
    to h = (
      split b'/' id,
      split_ne_nil b'/' id,
      All-all is_id_segment is_id_segment-IsSegment (split b'/' id) (ground arith),
      join-split b'/' id,
    )

    from : IsId id → not (is_empty id) && all is_id_segment (split b'/' id) ≡ true
    from (ps, ne, hs, e) =
        rw (← e, join_ne_nil ps ne hs, split-join b'/' ps ne (segments-Lacks ps hs))
          (all-All is_id_segment IsSegment-is_id_segment ps hs)

pub validate_id-eq-ok : (id : Bytes) → validate_id id ≡ ok tt → IsId id
unfolding validate_id
validate_id-eq-ok id h = (is_valid_entity_id_iff id).0 (ground arith)

pub IsId-validate_id : (id : Bytes) → IsId id → validate_id id ≡ ok tt
unfolding validate_id
IsId-validate_id [] h =
    absurd (let v = (is_valid_entity_id_iff []).1 h in unfold is_valid_entity_id in ground arith)
IsId-validate_id (c ∷ id) h = rw ((is_valid_entity_id_iff (c ∷ id)).1 h)

pub IsId-ne_nil : (id : Bytes) → IsId id → is_empty id ≡ false
IsId-ne_nil id (ps, ne, hs, e) = rw (← e) (join_ne_nil ps ne hs)

-- An id has no byte by which addresses are cut.
IsId-All :
    (P : ℕ → Type 0) → ((c : ℕ) → IsIdByte c → P c) → P b'/' → (id : Bytes) → IsId id → All P id
IsId-All P f slash id (ps, ne, hs, e) =
    subst (All P) e (join-All P b'/' ps slash (All-map (λ s h. All-map f s h.1) ps hs))

pub IsId-Lacks_hash : (id : Bytes) → IsId id → Lacks b'#' id
IsId-Lacks_hash = IsId-All (λ c. c ≢ b'#') (λ c h. ground arith) (omega arith)

pub IsId-Lacks_colon : (id : Bytes) → IsId id → Lacks b':' id
IsId-Lacks_colon = IsId-All (λ c. c ≢ b':') (λ c h. ground arith) (omega arith)

-- An id does not end in a slash, so no entity id is read as a subtree.
pub strip_suffix-IsId : (id : Bytes) → IsId id → strip_suffix id (b'/' ∷ []) ≡ none
strip_suffix-IsId id h = elim (Option-cases (strip_suffix id (b'/' ∷ []))) [
  | inl e ↦ e
  | inr (r, e) ↦
      let ended = strip_suffix-eq-some id (b'/' ∷ []) r e in
      let segments = subst IsId ended h in
      let valid = (is_valid_entity_id_iff (r ++ b'/' ∷ [])).1 segments in
      absurd (no_last_segment r valid)
]
  where
    no_last_segment : (r : Bytes) → is_valid_entity_id (r ++ b'/' ∷ []) ≡ true → ⊥
    no_last_segment r v =
        unfold is_valid_entity_id in
        let parts : all is_id_segment (split b'/' (r ++ b'/' ∷ [])) ≡ true = ground arith in
        let all_parts =
          All-all is_id_segment is_id_segment-IsSegment (split b'/' r ++ [] ∷ [])
            (rw (← split_at_end b'/' r) parts) in
        (All-append_right IsSegment (split b'/' r) ([] ∷ []) all_parts).0.0 refl

-- The escape loop accepts exactly the escaped texts.
pub check_escapes-eq-ok : (p s : Bytes) → check_escapes p s ≡ ok tt → IsEscaped s
unfolding check_escapes peeks_escape
check_escapes-eq-ok p [] h = done
check_escapes-eq-ok p (c ∷ []) h = plain c (ground arith) done
check_escapes-eq-ok p (c ∷ d ∷ s) h = elim (Bool-cases (c == b'~')) [
  | inl e ↦ tilde c d (ground arith) (ground arith) (check_escapes-eq-ok p s (ground arith))
  | inr e ↦ plain c (ground arith) (check_escapes-eq-ok p (d ∷ s) (ground arith))
]

pub IsEscaped-check_escapes : (p : Bytes) {s : Bytes} → IsEscaped s → check_escapes p s ≡ ok tt
unfolding check_escapes peeks_escape
IsEscaped-check_escapes p done = refl
IsEscaped-check_escapes p (plain c ne h) = ground (arith, IsEscaped-check_escapes p h)
IsEscaped-check_escapes p (tilde c d e o h) = ground (arith, IsEscaped-check_escapes p h)

check_escapes_slash :
    (p : Bytes) (c : ℕ) (s : Bytes) → c ≡ b'/' → check_escapes p (c ∷ s) ≡ check_escapes p s
unfolding check_escapes
check_escapes_slash p c s h = ground arith

pub validate_pointer-eq-ok :
    (p : Bytes) {q : Bytes} → validate_pointer p ≡ ok q → (q ≡ p) × IsPointer p
unfolding validate_pointer
validate_pointer-eq-ok [] h = (ground arith, whole)
validate_pointer-eq-ok (c ∷ s) h =
    let slash : c ≡ b'/' = ground arith in
    let escapes : check_escapes (c ∷ s) (c ∷ s) ≡ ok tt = ground arith in
    (
      ground arith,
      path c slash
          (check_escapes-eq-ok (c ∷ s) s (sym (check_escapes_slash (c ∷ s) c s slash) ∙ escapes)),
    )

pub IsPointer-validate_pointer : {p : Bytes} → IsPointer p → validate_pointer p ≡ ok p
unfolding validate_pointer
IsPointer-validate_pointer whole = refl
IsPointer-validate_pointer (path c {s} e h) =
    ground (arith, check_escapes_slash (c ∷ s) c s e, IsEscaped-check_escapes (c ∷ s) h)
