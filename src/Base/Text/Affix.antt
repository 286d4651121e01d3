-- ===== src/Base/Text/Affix.antt =====
-- `starts_with`, `ends_with`, `strip_prefix`, `strip_suffix` and `contains` of a byte.
use Prim.Native.Nat.{ℕ}
use mathlib.Core.Path.{◌≡◌, refl, ap}
use mathlib.Core.Logic.{◌≢◌, inl, inr}
use mathlib.Core.Bool.{Bool, true, false, ◌||◌}
use mathlib.Core.List.{[], ◌∷◌, ◌++◌}
use mathlib.Core.Option.{Option, none, some}
use native.Mathlib.Omega.{arith}
use rototo.Base.Tests.{◌==◌, if◌then◌else◌, Option-cases}
use rototo.Base.Lists.{length, length-append}
use rototo.Base.Text.Split.{Bytes, text_eq, text_eq_iff}

-- `s.strip_prefix(p)`
unfoldable pub strip_prefix : Bytes → Bytes → Option Bytes
strip_prefix s [] = some s
strip_prefix [] (x ∷ p) = none
strip_prefix (c ∷ s) (x ∷ p) = if c == x then strip_prefix s p else none

unfoldable pub starts_with : Bytes → Bytes → Bool
unfolding strip_prefix
starts_with s p = elim (strip_prefix s p) [ none ↦ false | some r ↦ true ]

-- `s.strip_suffix(p)`: the suffix of the right length is the only candidate.
unfoldable pub strip_suffix : Bytes → Bytes → Option Bytes
unfolding text_eq
strip_suffix [] p = if text_eq [] p then some [] else none
strip_suffix (c ∷ s) p =
    if text_eq (c ∷ s) p
    then some []
    else elim (strip_suffix s p) [ none ↦ none | some r ↦ some (c ∷ r) ]

unfoldable pub ends_with : Bytes → Bytes → Bool
unfolding strip_suffix
ends_with s p = elim (strip_suffix s p) [ none ↦ false | some r ↦ true ]

unfoldable pub contains_byte : ℕ → Bytes → Bool
contains_byte b [] = false
contains_byte b (c ∷ s) = c == b || contains_byte b s

pub strip_prefix-append : (p s : Bytes) → strip_prefix (p ++ s) p ≡ some s
unfolding strip_prefix
strip_prefix-append [] s = refl
strip_prefix-append (x ∷ p) s = ground (arith, strip_prefix-append p s)

pub strip_prefix-eq-some : (s p r : Bytes) → strip_prefix s p ≡ some r → s ≡ p ++ r
unfolding strip_prefix
strip_prefix-eq-some s [] r h = cc
strip_prefix-eq-some [] (x ∷ p) r h = cc
strip_prefix-eq-some (c ∷ s) (x ∷ p) r h = ground (arith, strip_prefix-eq-some s p r)

pub strip_suffix-eq-some : (s p : Bytes) (r : Bytes) → strip_suffix s p ≡ some r → s ≡ r ++ p
unfolding strip_suffix
strip_suffix-eq-some [] p [] h = ground (arith, text_eq_iff [] p)
strip_suffix-eq-some [] p (x ∷ r) h = ground arith
strip_suffix-eq-some (c ∷ s) p [] h = ground (arith, text_eq_iff (c ∷ s) p)
strip_suffix-eq-some (c ∷ s) p (x ∷ r) h = ground (arith, strip_suffix-eq-some s p r)

-- A text is not longer than itself.
longer : (c : ℕ) (r p : Bytes) → c ∷ (r ++ p) ≢ p
longer c r p e = absurd (omega (arith, ap length e, length-append r p))

strip_suffix_self : (p : Bytes) → strip_suffix p p ≡ some []
unfolding strip_suffix
strip_suffix_self [] = refl
strip_suffix_self (x ∷ p) = rw ((text_eq_iff (x ∷ p) (x ∷ p)).1 refl)

pub strip_suffix-append : (r p : Bytes) → strip_suffix (r ++ p) p ≡ some r
strip_suffix-append [] p = strip_suffix_self p
strip_suffix-append (c ∷ r) p = step (strip_suffix-append r p)
  where
    step : strip_suffix (r ++ p) p ≡ some r → strip_suffix (c ∷ (r ++ p)) p ≡ some (c ∷ r)
    step ih = unfold strip_suffix in ground (arith, ih, text_eq_iff (c ∷ (r ++ p)) p, longer c r p)

pub ends_with-append : (s p : Bytes) → ends_with s p ≡ true → (rest : Bytes) × (s ≡ rest ++ p)
unfolding ends_with
ends_with-append s p h = elim (Option-cases (strip_suffix s p)) [
  | inl missing ↦ absurd (ground arith)
  | inr (rest, found) ↦ (rest, strip_suffix-eq-some s p rest found)
]

pub append-ends_with : (rest p : Bytes) → ends_with (rest ++ p) p ≡ true
unfolding ends_with
append-ends_with rest p = rw (ends_with, strip_suffix-append rest p) refl
