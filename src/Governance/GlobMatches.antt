-- ===== src/Governance/GlobMatches.antt =====
-- `glob_match` of src/source/governance.rs against the meaning of patterns.
use mathlib.Core.Path.{subst}
use rototo.Base.{
  ℕ, true, false, List, [], ◌∷◌, ◌++◌, none, some, ◌≡◌, ◌≢◌, ◌↔◌, refl, sym, ap, ◌∙◌, arith, All,
  Option-cases, inl, inr, append-nil, Bytes, Lacks, split, join, join-split, split_ne_nil,
  split-Lacks, strip_prefix, strip_prefix-append, strip_prefix-eq-some, text_eq, text_eq_iff,
}
use rototo.Governance.Glob.{
  match_parts, last_part, closes, match_split, glob_match, Matches, done, literal, star,
}
use rototo.Governance.GlobParts.{Rest, accepts, accepts-Rest, Rest-accepts}

-- the first part at the start, the others behind it
abbrev Cuts : List Bytes → Bytes → Type 0
Cuts [] v = ⊥
Cuts (first ∷ []) v = v ≡ first
Cuts (first ∷ next ∷ parts) v = (w : Bytes) × (v ≡ first ++ w) × Rest (next ∷ parts) w

Matches-cons :
    {s v : Bytes} (c : ℕ) (p : Bytes)
    → Matches s v
    → s ≡ c ∷ p
    → c ≢ b'*'
    → (w : Bytes) × (v ≡ c ∷ w) × Matches p w
Matches-cons c p done e n = absurd (cc)
Matches-cons c p (literal d {p = p'} {v = v'} m h) e n =
    (v', ap (λ x. x ∷ v') (ground arith), subst (λ x. Matches x v') (ground arith) h)
Matches-cons c p (star d run f g h) e n = absurd (ground arith)

Matches-star :
    {s v : Bytes} (p : Bytes)
    → Matches s v
    → s ≡ b'*' ∷ p
    → (run : Bytes) × (w : Bytes) × (v ≡ run ++ w) × Matches p w
Matches-star p done e = absurd (cc)
Matches-star p (literal d m h) e = absurd (ground arith)
Matches-star p (star d run {p = p'} {v = v'} f g h) e =
    (run, v', g, subst (λ x. Matches x v') (ground arith) h)

Matches-append :
    (p q : Bytes) {v : Bytes}
    → Lacks b'*' p
    → Matches (p ++ q) v
    → (w : Bytes) × (v ≡ p ++ w) × Matches q w
Matches-append [] q {v} h m = (v, refl, m)
Matches-append (c ∷ p) q (n, h) m =
    let (u, e, tail) = Matches-cons c (p ++ q) m refl n in
    let (w, f, rest) = Matches-append p q h tail in (w, e ∙ ap (λ t. c ∷ t) f, rest)

append-Matches : (p : Bytes) {q w : Bytes} → Lacks b'*' p → Matches q w → Matches (p ++ q) (p ++ w)
append-Matches [] h m = m
append-Matches (c ∷ p) (n, h) m = literal c n (append-Matches p h m)

Matches-nil : {s v : Bytes} → Matches s v → s ≡ [] → v ≡ []
Matches-nil done e = refl
Matches-nil (literal c n h) e = absurd (cc)
Matches-nil (star c run f g h) e = absurd (cc)

pub Matches-whole : (p : Bytes) {v : Bytes} → Lacks b'*' p → Matches p v → v ≡ p
Matches-whole [] h m = Matches-nil m refl
Matches-whole (c ∷ p) (n, h) m =
    let (w, e, tail) = Matches-cons c p m refl n in e ∙ ap (λ t. c ∷ t) (Matches-whole p h tail)

whole-Matches : (p : Bytes) → Lacks b'*' p → Matches p p
whole-Matches [] h = done
whole-Matches (c ∷ p) (n, h) = literal c n (whole-Matches p h)

-- Behind a star the parts of a pattern are cut out of the value in order.
Matches-Rest :
    (parts : List Bytes) {v : Bytes}
    → parts ≢ []
    → All (Lacks b'*') parts
    → Matches (b'*' ∷ join b'*' parts) v
    → Rest parts v
unfolding join
Matches-Rest [] ne h m = absurd (ne refl)
Matches-Rest (p ∷ []) {v} ne (hp, h) m =
    let (run, w, e, tail) = Matches-star p m refl in
    (run, subst (λ t. v ≡ run ++ t) (Matches-whole p hp tail) e)
Matches-Rest (p ∷ q ∷ ps) ne (hp, h) m =
    let (run, w, e, tail) = Matches-star (p ++ b'*' ∷ join b'*' (q ∷ ps)) m refl in
    let (rest, f, behind) = Matches-append p (b'*' ∷ join b'*' (q ∷ ps)) hp tail in
    (run, rest, rw f at e, Matches-Rest (q ∷ ps) (λ n. cc) h behind)

Rest-Matches :
    (parts : List Bytes) (v : Bytes)
    → All (Lacks b'*') parts
    → Rest parts v
    → Matches (b'*' ∷ join b'*' parts) v
unfolding join
Rest-Matches [] v h r = absurd r
Rest-Matches (p ∷ []) v (hp, h) (pre, e) = star b'*' pre refl e (whole-Matches p hp)
Rest-Matches (p ∷ q ∷ ps) v (hp, h) (pre, rest, e, r) =
    star b'*' pre refl e (append-Matches p hp (Rest-Matches (q ∷ ps) rest h r))

Matches-Cuts :
    (parts : List Bytes) {v : Bytes}
    → parts ≢ []
    → All (Lacks b'*') parts
    → Matches (join b'*' parts) v
    → Cuts parts v
unfolding join
Matches-Cuts [] ne h m = absurd (ne refl)
Matches-Cuts (p ∷ []) ne (hp, h) m = Matches-whole p hp m
Matches-Cuts (p ∷ q ∷ ps) ne (hp, h) m =
    let (w, e, tail) = Matches-append p (b'*' ∷ join b'*' (q ∷ ps)) hp m in
    (w, e, Matches-Rest (q ∷ ps) (λ n. cc) h tail)

Cuts-Matches :
    (parts : List Bytes) (v : Bytes)
    → All (Lacks b'*') parts
    → Cuts parts v
    → Matches (join b'*' parts) v
unfolding join
Cuts-Matches [] v h c = absurd c
Cuts-Matches (p ∷ []) v (hp, h) c = rw c (whole-Matches p hp)
Cuts-Matches (p ∷ q ∷ ps) v (hp, h) (w, e, r) =
    rw e (append-Matches p hp (Rest-Matches (q ∷ ps) w h r))

module _ (pattern value p : Bytes) (parts : List Bytes) where
  split_miss : strip_prefix value p ≡ none → match_split pattern value (p ∷ parts) ≡ false
  unfolding match_split
  split_miss h = ground arith

  split_hit :
      (w : Bytes)
      → strip_prefix value p ≡ some w
      → match_split pattern value (p ∷ parts) ≡ accepts pattern value w parts
  unfolding match_split accepts
  split_hit w h = rw (h, match_split)

accepts_nil : (pattern value w : Bytes) → accepts pattern value w [] ≡ text_eq pattern value
unfolding accepts match_parts last_part closes
accepts_nil pattern value w = refl

match_split-Cuts :
    (pattern value : Bytes) (parts : List Bytes)
    → parts ≢ []
    → join b'*' parts ≡ pattern
    → match_split pattern value parts ≡ true
    → Cuts parts value
unfolding join
match_split-Cuts pattern value [] ne j h = absurd (ne refl)
match_split-Cuts pattern value (p ∷ []) ne j h = elim (Option-cases (strip_prefix value p)) [
  | inl e ↦ absurd (cc (split_miss pattern value p [] e))
  | inr (w, e) ↦
      let same = sym (accepts_nil pattern value w) ∙ sym (split_hit pattern value p [] w e) ∙ h in
      sym ((text_eq_iff pattern value).0 same) ∙ sym j
]
match_split-Cuts pattern value (p ∷ q ∷ ps) ne j h = elim (Option-cases (strip_prefix value p)) [
  | inl e ↦ absurd (cc (split_miss pattern value p (q ∷ ps) e))
  | inr (w, e) ↦
      let cut = strip_prefix-eq-some value p w e in
      (
        w,
        cut,
        accepts-Rest pattern value p w (q ∷ ps) cut
            (sym (split_hit pattern value p (q ∷ ps) w e) ∙ h) (λ n. cc),
      )
]

Cuts-match_split :
    (pattern value : Bytes) (parts : List Bytes)
    → join b'*' parts ≡ pattern
    → Cuts parts value
    → match_split pattern value parts ≡ true
unfolding join
Cuts-match_split pattern value [] j c = absurd c
Cuts-match_split pattern value (p ∷ []) j c =
    let whole : strip_prefix value p ≡ some [] =
      subst (λ t. strip_prefix t p ≡ some []) (append-nil p ∙ sym c) (strip_prefix-append p []) in
    split_hit pattern value p [] [] whole
    ∙ accepts_nil pattern value []
    ∙ (text_eq_iff pattern value).1 (sym j ∙ sym c)
Cuts-match_split pattern value (p ∷ q ∷ ps) j (w, e, r) =
    split_hit pattern value p (q ∷ ps) w (rw e (strip_prefix-append p w))
    ∙ Rest-accepts pattern value p w (q ∷ ps) e r

-- The glob matcher accepts a value exactly when the value matches the pattern, where a star stands
-- for any run of bytes and every other byte for itself.
pub glob_match_iff :
    (pattern value : Bytes) → (glob_match pattern value ≡ true) ↔ Matches pattern value
unfolding glob_match
glob_match_iff pattern value = (
  λ h. rw (← join-split b'*' pattern) (
      Cuts-Matches (split b'*' pattern) value (split-Lacks b'*' pattern) (
        match_split-Cuts pattern value (split b'*' pattern) (split_ne_nil b'*' pattern)
          (join-split b'*' pattern) h)),
  λ m. Cuts-match_split pattern value (split b'*' pattern) (join-split b'*' pattern) (
      Matches-Cuts (split b'*' pattern) (split_ne_nil b'*' pattern) (split-Lacks b'*' pattern)
        (rw (join-split b'*' pattern) m)),
)
