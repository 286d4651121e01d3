-- ===== src/Resolve/Hash.antt =====
-- `stable_unit_hash`, `bucket_value` and `allocation_bucket` of src/resolve.rs: FNV-1a on `u64`, with the
-- multiplication wrapping at 2 ^ 64.
use rototo.Base.{
  ℕ, zero, suc, ◌+◌, ◌*◌, ◌/◌, ◌%◌, ◌^◌, [], ◌∷◌, ◌++◌, Bytes, none, some, Result, ok, err,
}
use rototo.Resolve.Engine.{Engine}
use rototo.Resolve.Runtime.{RototoError, panicked}

-- exclusive or of the lowest `bits` bits
unfoldable pub xor : ℕ → ℕ → ℕ → ℕ
xor zero a b = 0
xor (suc bits) a b = 2 * xor bits (a / 2) (b / 2) + (a + b) % 2

abbrev pub offset_basis : ℕ
offset_basis = 14695981039346656037

abbrev pub fnv_prime : ℕ
fnv_prime = 1099511628211

unfoldable pub hash_bytes : ℕ → Bytes → ℕ
hash_bytes hash [] = hash
hash_bytes hash (byte ∷ bytes) = hash_bytes ((xor 64 hash byte * fnv_prime) % 2 ^ 64) bytes

module _ (E : Engine) where
  open E use {Json, as_str, to_text}

  abbrev pub canonical_context_value : Json → Bytes
  canonical_context_value value = elim (as_str value) [ some text ↦ text | none ↦ to_text value ]

  unfoldable pub stable_unit_hash : Bytes → Json → ℕ
  stable_unit_hash salt value =
      hash_bytes offset_basis (salt ++ b':' ∷ canonical_context_value value)

  unfoldable pub bucket_value : Bytes → Json → ℕ
  bucket_value salt value = stable_unit_hash salt value % 10000 % 2 ^ 16

  -- The remainder by 0 panics.
  unfoldable pub allocation_bucket : Bytes → Json → ℕ → Result RototoError ℕ
  allocation_bucket layer unit zero = err panicked
  allocation_bucket layer unit (suc n) = ok (stable_unit_hash layer unit % suc n % 2 ^ 32)
