-- ===== src/Base/Text/Split.antt =====
-- Equality of texts, `split_once` and `split` at a byte, and `join`.
use Prim.Native.Nat.{ℕ}
use Prim.Native.Char.{code}
use Prim.Native.String.{String}
use mathlib.Core.Path.{◌≡◌, refl, ap, ◌∙◌}
use mathlib.Core.Logic.{◌≢◌, ◌↔◌, inl, inr}
use mathlib.Core.Bool.{Bool, true, false, ◌&&◌}
use mathlib.Core.List.{List, [], ◌∷◌, ◌++◌}
use mathlib.Core.Option.{Option, none, some}
use native.Mathlib.Omega.{arith}
use rototo.Base.Tests.{◌==◌, if◌then◌else◌, Bool-cases, Option-cases}
use rototo.Base.Lists.{All, All-append}

abbrev pub Bytes : Type 0
Bytes = List ℕ

-- The code points of a literal; these are its bytes when it is ASCII.
abbrev pub codes : String → Bytes
codes String.[] = []
codes (String.◌∷◌ c s) = code c ∷ codes s

unfoldable pub text_eq : Bytes → Bytes → Bool
text_eq [] [] = true
text_eq (x ∷ xs) (y ∷ ys) = x == y && text_eq xs ys
text_eq _ _ = false

pub text_eq_iff : (a b : Bytes) → (text_eq a b ≡ true) ↔ (a ≡ b)
unfolding text_eq
text_eq_iff (x ∷ a) (y ∷ b) = ground (arith, text_eq_iff a b)
text_eq_iff _ _ = ground arith

abbrev pub Lacks : ℕ → Bytes → Type 0
Lacks b = All (λ c. c ≢ b)

-- The text before the first `sep` and the text behind it.
unfoldable pub split_once : ℕ → Bytes → Option (Bytes × Bytes)
split_once sep [] = none
split_once sep (c ∷ s) =
    if c == sep
    then some ([], s)
    else elim (split_once sep s) [ none ↦ none | some (a, b) ↦ some (c ∷ a, b) ]

abbrev cons_head : ℕ → List Bytes → List Bytes
cons_head c [] = (c ∷ []) ∷ []
cons_head c (p ∷ ps) = (c ∷ p) ∷ ps

-- The parts between the separators: one more than there are separators.
unfoldable pub split : ℕ → Bytes → List Bytes
split sep [] = [] ∷ []
split sep (c ∷ s) = let rest = split sep s in if c == sep then [] ∷ rest else cons_head c rest

unfoldable pub join : ℕ → List Bytes → Bytes
join sep [] = []
join sep (p ∷ []) = p
join sep (p ∷ q ∷ ps) = p ++ sep ∷ join sep (q ∷ ps)

-- A predicate of every byte of a text holds of every byte of a part, and the other way round.
module _ {κ} (P : ℕ → Type κ) (sep : ℕ) where
  cons_head-All : (c : ℕ) (ps : List Bytes) → P c → All (All P) ps → All (All P) (cons_head c ps)
  cons_head-All c [] p h = ((p, tt), tt)
  cons_head-All c (q ∷ ps) p (hq, h) = ((p, hq), h)

  pub split-All : (s : Bytes) → All P s → All (All P) (split sep s)
  unfolding split
  split-All [] h = (tt, tt)
  split-All (c ∷ s) (p, h) = elim (Bool-cases (c == sep)) [
    | inl e ↦ rw e (tt, split-All s h)
    | inr e ↦ rw e (cons_head-All c (split sep s) p (split-All s h))
  ]

  pub join-All : (ps : List Bytes) → P sep → All (All P) ps → All P (join sep ps)
  unfolding join
  join-All [] p h = tt
  join-All (q ∷ []) p (hq, h) = hq
  join-All (q ∷ r ∷ ps) p (hq, h) =
      All-append P q (sep ∷ join sep (r ∷ ps)) hq (p, join-All (r ∷ ps) p h)

module _ (sep : ℕ) where
  cons_head-Lacks :
      (c : ℕ) (ps : List Bytes) → c ≢ sep → All (Lacks sep) ps → All (Lacks sep) (cons_head c ps)
  cons_head-Lacks c [] p h = ((p, tt), tt)
  cons_head-Lacks c (q ∷ ps) p (hq, h) = ((p, hq), h)

  pub split-Lacks : (s : Bytes) → All (Lacks sep) (split sep s)
  unfolding split
  split-Lacks [] = (tt, tt)
  split-Lacks (c ∷ s) = elim (Bool-cases (c == sep)) [
    | inl e ↦ rw e (tt, split-Lacks s)
    | inr e ↦ rw e (cons_head-Lacks c (split sep s) (ground arith) (split-Lacks s))
  ]

  pub split_ne_nil : (s : Bytes) → split sep s ≢ []
  unfolding split
  split_ne_nil [] = λ e. cc
  split_ne_nil (c ∷ s) = ground arith

  join-cons_head : (c : ℕ) (ps : List Bytes) → ps ≢ [] → join sep (cons_head c ps) ≡ c ∷ join sep ps
  unfolding join
  join-cons_head c [] h = absurd (h refl)
  join-cons_head c (p ∷ []) h = refl
  join-cons_head c (p ∷ q ∷ ps) h = refl

  join-nil_cons : (ps : List Bytes) → ps ≢ [] → join sep ([] ∷ ps) ≡ sep ∷ join sep ps
  unfolding join
  join-nil_cons [] h = absurd (h refl)
  join-nil_cons (p ∷ ps) h = refl

  split_self : (s : Bytes) → split sep (sep ∷ s) ≡ [] ∷ split sep s
  unfolding split
  split_self s = ground arith

  split_ne : (c : ℕ) (s : Bytes) → c ≢ sep → split sep (c ∷ s) ≡ cons_head c (split sep s)
  unfolding split
  split_ne c s h = ground arith

  split_at : (c : ℕ) (s : Bytes) → (c == sep) ≡ true → split sep (c ∷ s) ≡ [] ∷ split sep s
  unfolding split
  split_at c s h = rw h

  -- Joining the parts of a split gives the text back.
  pub join-split : (s : Bytes) → join sep (split sep s) ≡ s
  join-split [] = unfold split join in refl
  join-split (c ∷ s) = elim (Bool-cases (c == sep)) [
    | inl e ↦
        rw (split_at c s e, join-nil_cons (split sep s) (split_ne_nil s), join-split s)
          (ap (λ b. b ∷ s) (ground arith))
    | inr e ↦
        rw (split_ne c s (ground arith), join-cons_head c (split sep s) (split_ne_nil s))
          (ap (λ t. c ∷ t) (join-split s))
  ]

  split_lacking : (p : Bytes) → Lacks sep p → split sep p ≡ p ∷ []
  split_lacking [] h = unfold split in refl
  split_lacking (c ∷ p) (hc, h) = rw (split_ne c p hc, split_lacking p h)

  split-append : (p s : Bytes) → Lacks sep p → split sep (p ++ sep ∷ s) ≡ p ∷ split sep s
  split-append [] s h = split_self s
  split-append (c ∷ p) s (hc, h) = rw (split_ne c (p ++ sep ∷ s) hc, split-append p s h)

  join-cons : (p q : Bytes) (ps : List Bytes) → join sep (p ∷ q ∷ ps) ≡ p ++ sep ∷ join sep (q ∷ ps)
  unfolding join
  join-cons p q ps = refl

  cons_head-append :
      (c : ℕ) (ps qs : List Bytes) → ps ≢ [] → cons_head c (ps ++ qs) ≡ cons_head c ps ++ qs
  cons_head-append c [] qs h = absurd (h refl)
  cons_head-append c (p ∷ ps) qs h = refl

  -- A separator at the end is followed by an empty last part.
  pub split_at_end : (s : Bytes) → split sep (s ++ sep ∷ []) ≡ split sep s ++ [] ∷ []
  split_at_end [] = split_self [] ∙ unfold split in refl
  split_at_end (c ∷ s) = elim (Bool-cases (c == sep)) [
    | inl e ↦ rw (split_at c (s ++ sep ∷ []) e, split_at c s e) (ap (λ r. [] ∷ r) (split_at_end s))
    | inr e ↦
        rw (split_ne c (s ++ sep ∷ []) (ground arith), split_ne c s (ground arith), split_at_end s)
          (cons_head-append c (split sep s) ([] ∷ []) (split_ne_nil s))
  ]

  -- Splitting a join gives the parts back, if there is a part and none holds the separator.
  pub split-join : (ps : List Bytes) → ps ≢ [] → All (Lacks sep) ps → split sep (join sep ps) ≡ ps
  split-join [] h hs = absurd (h refl)
  split-join (p ∷ []) h (hp, hs) = unfold join in split_lacking p hp
  split-join (p ∷ q ∷ ps) h (hp, hs) =
      rw (join-cons p q ps, split-append p (join sep (q ∷ ps)) hp)
        (ap (λ r. p ∷ r) (split-join (q ∷ ps) (λ e. cc) hs))

module _ (sep : ℕ) where
  pub split_once-append : (a b : Bytes) → Lacks sep a → split_once sep (a ++ sep ∷ b) ≡ some (a, b)
  unfolding split_once
  split_once-append [] b h = ground arith
  split_once-append (c ∷ a) b (hc, h) = ground (arith, split_once-append a b h)

  pub split_once-Lacks : (s : Bytes) → Lacks sep s → split_once sep s ≡ none
  unfolding split_once
  split_once-Lacks [] h = refl
  split_once-Lacks (c ∷ s) (hc, h) = ground (arith, split_once-Lacks s h)

  pub split_once-eq-none : (s : Bytes) → split_once sep s ≡ none → Lacks sep s
  unfolding split_once
  split_once-eq-none [] h = tt
  split_once-eq-none (c ∷ s) h = (ground arith, split_once-eq-none s (ground arith))

  pub split_once-eq-some :
      (s a b : Bytes) → split_once sep s ≡ some (a, b) → (s ≡ a ++ sep ∷ b) × Lacks sep a
  unfolding split_once
  split_once-eq-some [] a b h = cc
  split_once-eq-some (c ∷ s) [] b h = (ground arith, tt)
  split_once-eq-some (c ∷ s) (x ∷ a) b h = elim (Option-cases (split_once sep s)) [
    | inl e ↦ ground arith
    | inr ((a', b'), e) ↦
        let (same, lacks) = split_once-eq-some s a b (ground arith) in
        (ground arith, (ground arith, lacks))
  ]
