-- ===== src/Resolve/Arms.antt =====
-- The arms of an allocation (src/resolve.rs): the first that claims a bucket, and the bounds of a bucket.
use native.Mathlib.Nat.{mod-lt, mod-le}
use rototo.Base.{
  ℕ, zero, suc, ◌<◌, ◌≤◌, ◌%◌, ◌^◌, true, List, [], ◌∷◌, ◌++◌, Option, none, some, ◌≡◌, inl, inr,
  refl, sym, ap, arith, Bytes, ok, All, Bool-cases,
}
use rototo.Resolve.Engine.{Engine}
use rototo.Resolve.Runtime.{RuntimeArm}
use rototo.Resolve.Hash.{allocation_bucket, stable_unit_hash}
use rototo.Resolve.Trace.{claims, find_arm}

module _ (E : Engine) where
  open E use {Json}

  abbrev pub Claims : RuntimeArm E → ℕ → Type 0
  Claims arm bucket = (arm.start ≤ bucket) × (bucket ≤ arm.end)

  -- the arm that claims the bucket and before which no arm does, if any arm does
  abbrev pub IsArmOf : List (RuntimeArm E) → ℕ → Option (RuntimeArm E) → Type 0
  IsArmOf arms bucket none = All (λ arm. ¬ Claims arm bucket) arms
  IsArmOf arms bucket (some arm) =
      (before : List (RuntimeArm E)) × (after : List (RuntimeArm E)) × (arms
        ≡ before ++ arm ∷ after)
      × All (λ a. ¬ Claims a bucket) before
      × Claims arm bucket

  skip_arm :
      (a : RuntimeArm E) (arms : List (RuntimeArm E)) (bucket : ℕ) (o : Option (RuntimeArm E))
      → ¬ Claims a bucket
      → IsArmOf arms bucket o
      → IsArmOf (a ∷ arms) bucket o
  skip_arm a arms bucket none n h = (n, h)
  skip_arm a arms bucket (some arm) n (before, after, e, ns, c) =
      (a ∷ before, after, ap (λ as'. a ∷ as') e, (n, ns), c)

  pub find_arm-IsArmOf :
      (arms : List (RuntimeArm E)) (bucket : ℕ) → IsArmOf arms bucket (find_arm E arms bucket)
  unfolding find_arm
  find_arm-IsArmOf [] bucket = tt
  find_arm-IsArmOf (a ∷ arms) bucket = elim (Bool-cases (claims E a bucket)) [
    | inl e ↦ rw e ([], arms, refl, tt, ((ground arith), (ground arith)))
    | inr e ↦ rw e (
        skip_arm a arms bucket (find_arm E arms bucket) (λ c. ground arith)
          (find_arm-IsArmOf arms bucket))
  ]

  pub IsArmOf-find_arm :
      (arms : List (RuntimeArm E)) (bucket : ℕ) (o : Option (RuntimeArm E))
      → IsArmOf arms bucket o
      → find_arm E arms bucket ≡ o
  unfolding find_arm
  IsArmOf-find_arm [] bucket none h = refl
  IsArmOf-find_arm [] bucket (some arm) ([], after, e, ns, c) = absurd (cc)
  IsArmOf-find_arm [] bucket (some arm) (b ∷ before, after, e, ns, c) = absurd (cc)
  IsArmOf-find_arm (a ∷ arms) bucket none (n, h) =
      let rest = IsArmOf-find_arm arms bucket none h in
      elim (Bool-cases (claims E a bucket)) [
        | inl e ↦ absurd (n (ground arith, ground arith))
        | inr e ↦ rw e rest
      ]
  IsArmOf-find_arm (a ∷ arms) bucket (some arm) ([], after, e, ns, c) =
      let same : a ≡ arm = ground arith in
      let claimed : claims E arm bucket ≡ true = ground arith in rw (same, claimed) refl
  IsArmOf-find_arm (a ∷ arms) bucket (some arm) (b ∷ before, after, e, (n, ns), c) =
      let same : a ≡ b = ground arith in
      let tails : arms ≡ before ++ arm ∷ after = ground arith in
      let rest = IsArmOf-find_arm arms bucket (some arm) (before, after, tails, ns, c) in
      elim (Bool-cases (claims E b bucket)) [
        | inl f ↦ absurd (n (ground arith, ground arith))
        | inr f ↦ rw (same, f) rest
      ]

  pub bucket-lt :
      (layer : Bytes) (unit : Json) (buckets b : ℕ)
      → allocation_bucket E layer unit buckets ≡ ok b
      → b < buckets
  unfolding allocation_bucket
  bucket-lt layer unit zero b h = absurd (cc)
  bucket-lt layer unit (suc n) b h =
      let hash = stable_unit_hash E layer unit in
      let small = mod-lt hash {m = suc n} (omega arith) in
      let same : hash % suc n % 2 ^ 32 ≡ b = ground arith in
      let le = mod-le (hash % suc n) (2 ^ 32) in rw (sym same) (omega (arith, small, le))
