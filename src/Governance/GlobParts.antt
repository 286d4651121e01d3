-- ===== src/Governance/GlobParts.antt =====
-- The loop of `glob_match` in src/source/governance.rs against the cuts of the value that it looks for.
use mathlib.Core.Path.{subst}
use rototo.Base.{
  ℕ, Bool, true, false, List, [], ◌∷◌, ◌++◌, none, some, ◌≡◌, ◌≢◌, inl, inr, refl, sym, ap, ◌∙◌,
  arith, ◌≤◌, Option-cases, append_assoc, append-nil, length, length-append, Bytes, strip_prefix,
  ends_with, strip_suffix, append_cut, strip_prefix-append, strip_prefix-eq-some,
  strip_suffix-append, strip_suffix-eq-some,
}
use rototo.Governance.Glob.{find_after, match_parts, last_part, closes}

-- the parts behind the first, each behind any run of bytes, the last at the very end
abbrev pub Rest : List Bytes → Bytes → Type 0
Rest [] w = ⊥
Rest (part ∷ []) w = (pre : Bytes) × (w ≡ pre ++ part)
Rest (part ∷ next ∷ parts) w =
    (pre : Bytes) × (rest : Bytes) × (w ≡ pre ++ (part ++ rest)) × Rest (next ∷ parts) rest

Rest-longer : (parts : List Bytes) (x w : Bytes) → Rest parts w → Rest parts (x ++ w)
Rest-longer [] x w h = h
Rest-longer (part ∷ []) x w (pre, e) = (x ++ pre, rw (e, append_assoc))
Rest-longer (part ∷ next ∷ parts) x w (pre, rest, e, h) = (x ++ pre, rest, rw (e, append_assoc), h)

find_after-eq-some :
    (s part b : Bytes) → find_after s part ≡ some b → (pre : Bytes) × (s ≡ pre ++ (part ++ b))
unfolding find_after
find_after-eq-some [] part b h = ([], strip_prefix-eq-some [] part b h)
find_after-eq-some (c ∷ s) part b h = elim (Option-cases (strip_prefix (c ∷ s) part)) [
  | inl e ↦
      let (pre, f) = find_after-eq-some s part b (ground arith) in (c ∷ pre, ap (λ t. c ∷ t) f)
  | inr (r, e) ↦ ([], strip_prefix-eq-some (c ∷ s) part b (ground arith))
]

find_after_here : (s part r : Bytes) → strip_prefix s part ≡ some r → find_after s part ≡ some r
unfolding find_after
find_after_here [] part r h = h
find_after_here (c ∷ s) part r h = rw (h, find_after)

find_after_later :
    (d : ℕ) (s p b : Bytes)
    → strip_prefix (d ∷ s) p ≡ none
    → find_after s p ≡ some b
    → find_after (d ∷ s) p ≡ some b
unfolding find_after
find_after_later d s p b e f = rw (e, find_after) f

-- Wherever `part` occurs, the first occurrence is found, and what is left behind the given one is
-- left behind the first one too.
find_after_first :
    (pre part rest : Bytes)
    → (b : Bytes) × (y : Bytes) × (find_after (pre ++ (part ++ rest)) part ≡ some b)
      × (b ≡ y ++ rest)
find_after_first [] part rest =
    (rest, [], find_after_here (part ++ rest) part rest (strip_prefix-append part rest), refl)
find_after_first (c ∷ pre) part rest =
    elim (Option-cases (strip_prefix (c ∷ (pre ++ (part ++ rest))) part)) [
      | inl e ↦
          let (b, y, found, f) = find_after_first pre part rest in
          (b, y, find_after_later c (pre ++ (part ++ rest)) part b e found, f)
      | inr (r, e) ↦
          let cut = strip_prefix-eq-some (c ∷ (pre ++ (part ++ rest))) part r e in
          let (y, _, f) =
            append_cut (c ∷ (pre ++ part)) rest part r (rw append_assoc cut)
              (omega (arith, length-append {0} pre part)) in
          (r, y, find_after_here (c ∷ (pre ++ (part ++ rest))) part r e, f)
    ]

find_after_last : (pre part : Bytes) → (b : Bytes) × (find_after (pre ++ part) part ≡ some b)
find_after_last pre part =
    let (b, y, found, f) = find_after_first pre part [] in
    (b, subst (λ t. find_after (pre ++ t) part ≡ some b) (append-nil part) found)

-- what `glob_match` answers behind its first part
unfoldable pub accepts : Bytes → Bytes → Bytes → List Bytes → Bool
accepts pattern value rest parts = elim (match_parts rest parts) [
  | none ↦ false
  | some left ↦ closes pattern value (last_part parts)
]

-- The whole value is tested for the last part, behind a test that the rest holds the part.
ends_with_rest :
    (x w part value : Bytes)
    → value ≡ x ++ w
    → length part ≤ length w
    → ends_with value part ≡ true
    → (pre : Bytes) × (w ≡ pre ++ part)
ends_with_rest x w part value e le h = elim (Option-cases (strip_suffix value part)) [
  | inl n ↦ absurd (unfold ends_with in ground arith)
  | inr (r, f) ↦
      let both = sym e ∙ strip_suffix-eq-some value part r f in
      let (y, _, tail) =
        append_cut r part x w (sym both)
          (omega (arith, ap length both, length-append {0} x w, length-append {0} r part)) in
      (y, tail)
]

ends_with-append :
    (x pre part value : Bytes) → value ≡ x ++ (pre ++ part) → ends_with value part ≡ true
unfolding ends_with
ends_with-append x pre part value e =
    rw (e, ← append_assoc, strip_suffix-append (x ++ pre) part, ends_with)

module _ (pattern value w : Bytes) (c : ℕ) (part : Bytes) where
  accepts_miss :
      (parts : List Bytes)
      → find_after w (c ∷ part) ≡ none
      → accepts pattern value w ((c ∷ part) ∷ parts) ≡ false
  unfolding accepts match_parts
  accepts_miss parts h = ground arith

  accepts_end :
      (b : Bytes)
      → find_after w (c ∷ part) ≡ some b
      → accepts pattern value w ((c ∷ part) ∷ []) ≡ ends_with value (c ∷ part)
  unfolding accepts match_parts last_part closes
  accepts_end b h = ground arith

  accepts_hit :
      (b next : Bytes) (parts : List Bytes)
      → find_after w (c ∷ part) ≡ some b
      → accepts pattern value w ((c ∷ part) ∷ next ∷ parts) ≡ accepts pattern value b (next ∷ parts)
  unfolding accepts match_parts last_part
  accepts_hit b next parts h = ground arith

accepts_empty :
    (pattern value w next : Bytes) (parts : List Bytes)
    → accepts pattern value w ([] ∷ next ∷ parts) ≡ accepts pattern value w (next ∷ parts)
unfolding accepts match_parts last_part
accepts_empty pattern value w next parts = refl

regroup :
    (x pre part b value w : Bytes)
    → value ≡ x ++ w
    → w ≡ pre ++ (part ++ b)
    → value ≡ (x ++ (pre ++ part)) ++ b
regroup x pre part b value w e f = rw (e, f) (simp append_assoc)

module _ (pattern value : Bytes) where
  pub accepts-Rest :
      (x w : Bytes) (parts : List Bytes)
      → value ≡ x ++ w
      → accepts pattern value w parts ≡ true
      → parts ≢ []
      → Rest parts w
  accepts-Rest x w [] e h ne = absurd (ne refl)
  accepts-Rest x w ([] ∷ []) e h ne = (w, sym (append-nil w))
  accepts-Rest x w ((c ∷ part) ∷ []) e h ne = elim (Option-cases (find_after w (c ∷ part))) [
    | inl n ↦ absurd (cc (accepts_miss pattern value w c part [] n))
    | inr (b, f) ↦
        let (pre, cut) = find_after-eq-some w (c ∷ part) b f in
        ends_with_rest x w (c ∷ part) value e
          (omega
            (arith, ap length cut, length-append {0} pre (c ∷ part ++ b), length-append {0} part b))
          (sym (accepts_end pattern value w c part b f) ∙ h)
  ]
  accepts-Rest x w ([] ∷ next ∷ parts) e h ne = (
    [],
    w,
    refl,
    accepts-Rest x w (next ∷ parts) e (sym (accepts_empty pattern value w next parts) ∙ h)
        (λ n. cc),
  )
  accepts-Rest x w ((c ∷ part) ∷ next ∷ parts) e h ne =
      elim (Option-cases (find_after w (c ∷ part))) [
        | inl n ↦ absurd (cc (accepts_miss pattern value w c part (next ∷ parts) n))
        | inr (b, f) ↦
            let (pre, cut) = find_after-eq-some w (c ∷ part) b f in
            let whole = regroup x pre (c ∷ part) b value w e cut in
            (
              pre,
              b,
              cut,
              accepts-Rest (x ++ (pre ++ c ∷ part)) b (next ∷ parts) whole
                  (sym (accepts_hit pattern value w c part b next parts f) ∙ h) (λ n. cc),
            )
      ]

  pub Rest-accepts :
      (x w : Bytes) (parts : List Bytes)
      → value ≡ x ++ w
      → Rest parts w
      → accepts pattern value w parts ≡ true
  Rest-accepts x w [] e h = absurd h
  Rest-accepts x w ([] ∷ []) e h = unfold accepts match_parts last_part closes in refl
  Rest-accepts x w ((c ∷ part) ∷ []) e (pre, f) =
      let (b, found) = find_after_last pre (c ∷ part) in
      let hit : find_after w (c ∷ part) ≡ some b = rw f found in
      accepts_end pattern value w c part b hit
      ∙ ends_with-append x pre (c ∷ part) value (e ∙ ap (λ t. x ++ t) f)
  Rest-accepts x w ([] ∷ next ∷ parts) e (pre, rest, f, h) =
      accepts_empty pattern value w next parts
      ∙ Rest-accepts x w (next ∷ parts) e (rw f (Rest-longer (next ∷ parts) pre rest h))
  Rest-accepts x w ((c ∷ part) ∷ next ∷ parts) e (pre, rest, f, h) =
      let (b, y, found, g) = find_after_first pre (c ∷ part) rest in
      let hit : find_after w (c ∷ part) ≡ some b = rw f found in
      let (pre', cut) = find_after-eq-some w (c ∷ part) b hit in
      accepts_hit pattern value w c part b next parts hit
      ∙ Rest-accepts (x ++ (pre' ++ c ∷ part)) b (next ∷ parts)
          (regroup x pre' (c ∷ part) b value w e cut) (rw g (Rest-longer (next ∷ parts) y rest h))
