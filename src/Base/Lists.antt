-- ===== src/Base/Lists.antt =====
-- Lists measured by native numbers, and the Boolean and propositional forms of "all" and "any".
use Prim.Native.Nat.{ℕ, suc, ◌+◌}
use mathlib.Core.Path.{◌≡◌, refl}
use mathlib.Core.Logic.{◌⊎◌, inl, inr}
use mathlib.Core.Bool.{Bool, true, false, ◌&&◌, ◌||◌}
use mathlib.Core.List.{List, [], ◌∷◌, ◌++◌}
use native.Mathlib.Omega.{arith}
use rototo.Base.Tests.{Bool-cases}

module _ {ℓ} {A : Type ℓ} where
  abbrev pub length : List A → ℕ
  length [] = 0
  length (x ∷ xs) = suc (length xs)

  abbrev pub is_empty : List A → Bool
  is_empty [] = true
  is_empty (x ∷ xs) = false

  unfoldable pub all : (A → Bool) → List A → Bool
  all p [] = true
  all p (x ∷ xs) = p x && all p xs

  unfoldable pub any : (A → Bool) → List A → Bool
  any p [] = false
  any p (x ∷ xs) = p x || any p xs

module _ {ℓ} {A : Type ℓ} where
  pub length-append : (xs ys : List A) → length (xs ++ ys) ≡ length xs + length ys
  length-append [] ys = omega arith
  length-append (x ∷ xs) ys = omega (arith, length-append xs ys)

module _ {ℓ κ} {A : Type ℓ} (P : A → Type κ) where
  -- A predicate by recursion computes to tuples, which the tactics read and build.
  abbrev pub All : List A → Type κ
  All [] = Unit
  All (x ∷ xs) = P x × All xs

  pub All-append : (xs ys : List A) → All xs → All ys → All (xs ++ ys)
  All-append [] ys hx hy = hy
  All-append (x ∷ xs) ys (px, hx) hy = (px, All-append xs ys hx hy)

  pub All-append_right : (xs ys : List A) → All (xs ++ ys) → All ys
  All-append_right [] ys h = h
  All-append_right (x ∷ xs) ys (px, h) = All-append_right xs ys h

module _ {ℓ κ μ} {A : Type ℓ} {P : A → Type κ} {Q : A → Type μ} where
  pub All-map : ((x : A) → P x → Q x) → (xs : List A) → All P xs → All Q xs
  All-map f [] h = tt
  All-map f (x ∷ xs) (p, h) = (f x p, All-map f xs h)

module _ {ℓ κ} {A : Type ℓ} {P : A → Type κ} where
  pub All-all :
      (p : A → Bool) → ((x : A) → p x ≡ true → P x) → (xs : List A) → all p xs ≡ true → All P xs
  unfolding all
  All-all p f [] h = tt
  All-all p f (x ∷ xs) h = (f x (ground arith), All-all p f xs (ground arith))

  pub all-All :
      (p : A → Bool) → ((x : A) → P x → p x ≡ true) → (xs : List A) → All P xs → all p xs ≡ true
  unfolding all
  all-All p f [] h = refl
  all-All p f (x ∷ xs) (px, h) = ground (arith, f x px, all-All p f xs h)

-- the empty type at any level
pub data Never {κ} : Type κ where

module _ {ℓ κ} {A : Type ℓ} (P : A → Type κ) where
  abbrev pub Any : List A → Type κ
  Any [] = Never
  Any (x ∷ xs) = P x ⊎ Any xs

module _ {ℓ κ} {A : Type ℓ} {P : A → Type κ} where
  pub any-Any :
      (p : A → Bool) → ((x : A) → p x ≡ true → P x) → (xs : List A) → any p xs ≡ true → Any P xs
  unfolding any
  any-Any p f [] h = cc
  any-Any p f (x ∷ xs) h = elim (Bool-cases (p x)) [
    | inl e ↦ inl (f x e)
    | inr e ↦ inr (any-Any p f xs (ground arith))
  ]

  pub Any-any :
      (p : A → Bool) → ((x : A) → P x → p x ≡ true) → (xs : List A) → Any P xs → any p xs ≡ true
  unfolding any
  Any-any p f [] h = elim h [ ]
  Any-any p f (x ∷ xs) (inl e) = rw (f x e)
  Any-any p f (x ∷ xs) (inr e) = ground (arith, Any-any p f xs e)
