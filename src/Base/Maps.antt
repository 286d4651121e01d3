-- ===== src/Base/Maps.antt =====
-- Maps keyed by texts as lists of items in key order, and sets of texts as lists.
use Prim.Native.Nat.{ℕ, suc, ◌≤◌, ◌<◌}
use mathlib.Core.Path.{◌≡◌, refl}
use mathlib.Core.Logic.{inl, inr}
use mathlib.Core.Bool.{Bool, true, false, ◌&&◌, ◌||◌}
use mathlib.Core.List.{List, [], ◌∷◌}
use mathlib.Core.Option.{Option, none, some}
use native.Mathlib.Omega.{arith}
use rototo.Base.Tests.{ltb, ◌==◌, if◌then◌else◌, Bool-cases}
use rototo.Base.Lists.{length, Any}
use rototo.Base.Text.{Bytes, text_eq, text_eq_iff}

abbrev pub Map : Type 0 → Type 0
Map V = List (Bytes × V)

module _ {V : Type 0} where
  unfoldable pub lookup : Map V → Bytes → Option V
  lookup [] key = none
  lookup ((k, v) ∷ items) key = if text_eq k key then some v else lookup items key

  abbrev pub keys : Map V → List Bytes
  keys [] = []
  keys ((k, v) ∷ items) = k ∷ keys items

-- the order of the keys
unfoldable pub text_less : Bytes → Bytes → Bool
text_less _ [] = false
text_less [] (y ∷ ys) = true
text_less (x ∷ xs) (y ∷ ys) = ltb x y || (x == y && text_less xs ys)

module _ {V : Type 0} where
  -- `map.insert(key, value)`
  unfoldable pub assign : Map V → Bytes → V → Map V
  assign [] key value = (key, value) ∷ []
  assign ((k, v) ∷ items) key value =
      let rest = assign items key value in
      if text_eq k key
      then (key, value) ∷ items
      else if text_less key k
      then (key, value) ∷ (k, v) ∷ items
      else (k, v) ∷ rest

unfoldable pub member : List Bytes → Bytes → Bool
member [] x = false
member (y ∷ ys) x = text_eq y x || member ys x

-- `set.remove(x)`, of every copy
unfoldable pub remove : Bytes → List Bytes → List Bytes
remove x [] = []
remove x (y ∷ ys) = let rest = remove x ys in if text_eq y x then rest else y ∷ rest

pub text_eq_refl : (x : Bytes) → text_eq x x ≡ true
text_eq_refl x = (text_eq_iff x x).1 refl

pub text_eq-eq : (x y : Bytes) → text_eq x y ≡ true → x ≡ y
text_eq-eq x y = (text_eq_iff x y).0

pub remove_absent : (x : Bytes) (xs : List Bytes) → member xs x ≡ false → remove x xs ≡ xs
unfolding member remove
remove_absent x [] h = refl
remove_absent x (y ∷ ys) h = ground (arith, remove_absent x ys)

pub remove_added : (x : Bytes) (xs : List Bytes) → member xs x ≡ false → remove x (x ∷ xs) ≡ xs
unfolding remove
remove_added x xs h = rw (text_eq_refl x) (remove_absent x xs h)

pub member-keys :
    {V : Type 0} (items : Map V) (key : Bytes) (v : V)
    → lookup items key ≡ some v
    → member (keys items) key ≡ true
unfolding lookup member
member-keys [] key v h = cc
member-keys ((k, w) ∷ items) key v h = elim (Bool-cases (text_eq k key)) [
  | inl e ↦ rw e
  | inr e ↦ ground (arith, member-keys items key v (ground arith))
]

-- how many of `xs` are outside `ys`
unfoldable pub count_outside : List Bytes → List Bytes → ℕ
count_outside [] ys = 0
count_outside (x ∷ xs) ys = let rest = count_outside xs ys in if member ys x then rest else suc rest

pub count_outside-le_length : (xs ys : List Bytes) → count_outside xs ys ≤ length xs
unfolding count_outside
count_outside-le_length [] ys = omega arith
count_outside-le_length (x ∷ xs) ys = ground (arith, count_outside-le_length xs ys)

pub count_outside_le :
    (xs : List Bytes) (y : Bytes) (ys : List Bytes)
    → count_outside xs (y ∷ ys) ≤ count_outside xs ys
unfolding count_outside member
count_outside_le [] y ys = omega arith
count_outside_le (x ∷ xs) y ys = ground (arith, count_outside_le xs y ys)

pub count_outside_lt :
    (xs : List Bytes) (y : Bytes) (ys : List Bytes)
    → member xs y ≡ true
    → member ys y ≡ false
    → count_outside xs (y ∷ ys) < count_outside xs ys
unfolding count_outside member
count_outside_lt [] y ys h n = cc
count_outside_lt (x ∷ xs) y ys h n = elim (Bool-cases (text_eq x y)) [
  | inl e ↦
      let same = text_eq-eq x y e in
      let self = text_eq_refl y in let rest = count_outside_le xs y ys in rw same (ground arith)
  | inr e ↦ let rest = count_outside_lt xs y ys (ground arith) n in ground (arith)
]

module _ {V : Type 0} where
  pub lookup-assign :
      (items : Map V) (key other : Bytes) (v : V)
      → lookup (assign items key v) other
        ≡ (if text_eq key other then some v else lookup items other)
  unfolding lookup assign
  lookup-assign [] key other v = refl
  lookup-assign ((k, w) ∷ items) key other v = elim (Bool-cases (text_eq k key)) [
    | inl e ↦ let same = text_eq-eq k key e in rw same (ground arith)
    | inr e ↦ ground (arith, text_eq-eq key other, lookup-assign items key other v)
  ]

pub member-Any : (xs : List Bytes) (x : Bytes) → member xs x ≡ true → Any (λ y. y ≡ x) xs
unfolding member
member-Any [] x h = cc
member-Any (y ∷ ys) x h = elim (Bool-cases (text_eq y x)) [
  | inl e ↦ inl (text_eq-eq y x e)
  | inr e ↦ inr (member-Any ys x (ground arith))
]

pub Any-member : (xs : List Bytes) (x : Bytes) → Any (λ y. y ≡ x) xs → member xs x ≡ true
unfolding member
Any-member [] x h = elim h [ ]
Any-member (y ∷ ys) x (inl e) = rw e (ground (arith, text_eq_refl x))
Any-member (y ∷ ys) x (inr h) = ground (arith, Any-member ys x h)
