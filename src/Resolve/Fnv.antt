-- ===== src/Resolve/Fnv.antt =====
-- The FNV-1a hash of 64 bits, from its definition: the empty text has the offset basis, and a byte behind
-- a text changes the hash of the text.
use rototo.Base.{
  ℕ, zero, suc, ◌*◌, ◌%◌, ◌^◌, [], ◌∷◌, ◌++◌, Bytes, ◌≡◌, refl, ap, ◌∙◌, sym, ok, ok-injective, ◌⊎◌,
  inl, inr, some, none, Option-cases,
}
use mathlib.Core.Path.{subst}
use rototo.Resolve.Engine.{Engine}
use rototo.Resolve.Hash.{
  xor, hash_bytes, canonical_context_value, stable_unit_hash, allocation_bucket,
}

-- of the bytes in reverse
unfoldable pub fnv1a_back : Bytes → ℕ
fnv1a_back [] = 14695981039346656037
fnv1a_back (byte ∷ before) = (xor 64 (fnv1a_back before) byte * 1099511628211) % 2 ^ 64

abbrev reverse_onto : Bytes → Bytes → Bytes
reverse_onto [] before = before
reverse_onto (byte ∷ bytes) before = reverse_onto bytes (byte ∷ before)

unfoldable pub fnv1a : Bytes → ℕ
fnv1a bytes = fnv1a_back (reverse_onto bytes [])

hash_bytes_lem :
    (before bytes : Bytes)
    → hash_bytes (fnv1a_back before) bytes ≡ fnv1a_back (reverse_onto bytes before)
unfolding hash_bytes fnv1a_back
hash_bytes_lem before [] = refl
hash_bytes_lem before (byte ∷ bytes) = hash_bytes_lem (byte ∷ before) bytes

module _ (E : Engine) where
  open E use {Json, as_str, to_text}

  -- the text that a unit is hashed as: its own, or its JSON text if it is no string
  abbrev pub IsUnitText : Json → Bytes → Type 0
  IsUnitText unit text = (as_str unit ≡ some text) ⊎ ((as_str unit ≡ none) × (text ≡ to_text unit))

  -- the bucket of a unit among those of a layer
  abbrev pub IsBucketOf : Bytes → Json → ℕ → ℕ → Type 0
  IsBucketOf layer unit buckets bucket =
      (n : ℕ) × (text : Bytes) × (buckets ≡ suc n)
      × IsUnitText unit text
      × (bucket ≡ fnv1a (layer ++ b':' ∷ text) % suc n % 2 ^ 32)

  canonical-IsUnitText : (unit : Json) → IsUnitText unit (canonical_context_value E unit)
  canonical-IsUnitText unit = elim (Option-cases (as_str unit)) [
    | inl e ↦ rw (canonical_context_value, e) (inr (refl, refl))
    | inr (text, e) ↦ rw (canonical_context_value, e) (inl refl)
  ]

  IsUnitText-canonical :
      (unit : Json) (text : Bytes) → IsUnitText unit text → text ≡ canonical_context_value E unit
  IsUnitText-canonical unit text (inl e) = rw (canonical_context_value, e) refl
  IsUnitText-canonical unit text (inr (e, same)) = rw (canonical_context_value, e) same

  stable_unit_hash_lem :
      (layer : Bytes) (unit : Json)
      → stable_unit_hash E layer unit ≡ fnv1a (layer ++ b':' ∷ canonical_context_value E unit)
  unfolding stable_unit_hash fnv1a
  stable_unit_hash_lem layer unit =
      unfold fnv1a_back in hash_bytes_lem [] (layer ++ b':' ∷ canonical_context_value E unit)

  pub allocation_bucket-IsBucketOf :
      (layer : Bytes) (unit : Json) (buckets bucket : ℕ)
      → allocation_bucket E layer unit buckets ≡ ok bucket
      → IsBucketOf layer unit buckets bucket
  unfolding allocation_bucket
  allocation_bucket-IsBucketOf layer unit zero bucket h = absurd (cc)
  allocation_bucket-IsBucketOf layer unit (suc n) bucket h = (
    n,
    canonical_context_value E unit,
    refl,
    canonical-IsUnitText unit,
    sym (ok-injective (stable_unit_hash E layer unit % suc n % 2 ^ 32) bucket h)
        ∙ ap (λ hash. hash % suc n % 2 ^ 32) (stable_unit_hash_lem layer unit),
  )

  pub IsBucketOf-allocation_bucket :
      (layer : Bytes) (unit : Json) (buckets bucket : ℕ)
      → IsBucketOf layer unit buckets bucket
      → allocation_bucket E layer unit buckets ≡ ok bucket
  unfolding allocation_bucket
  IsBucketOf-allocation_bucket layer unit buckets bucket (n, text, some_buckets, is_text, same) =
      let whole : allocation_bucket E layer unit (suc n) ≡ ok bucket = ap ok (
        ap (λ hash. hash % suc n % 2 ^ 32) (stable_unit_hash_lem layer unit)
        ∙ ap (λ t. fnv1a (layer ++ b':' ∷ t) % suc n % 2 ^ 32)
            (sym (IsUnitText-canonical unit text is_text))
        ∙ sym same) in
      subst (λ b. allocation_bucket E layer unit b ≡ ok bucket) (sym some_buckets) whole
