-- ===== src/Refresh/Backoff.antt =====
-- `failure_backoff` of src/sdk/refresh.rs. A `Duration` is its nanoseconds, at most `Duration::MAX`.
use native.Mathlib.Nat.{pow-succ', mul-one, mul_left_comm}
use mathlib.Core.Path.{subst}
use rototo.Base.{
  ℕ, zero, suc, ◌+◌, ◌*◌, ◌^◌, ◌≤◌, ◌<◌, ◌≡◌, ◌⊎◌, inl, inr, refl, sym, ap, ◌∙◌, Bool-cases, arith,
  leb, if◌then◌else◌,
}

abbrev pub duration_max : ℕ
duration_max = 18446744073709551615 * 1000000000 + 999999999

abbrev pub smaller : ℕ → ℕ → ℕ
smaller a b = if leb a b then a else b

-- `saturating_mul`
abbrev pub saturating_mul : ℕ → ℕ → ℕ
saturating_mul duration n = smaller (duration * n) duration_max

-- The shift is at most 20, so that `checked_shl` of a `u32` gives the power.
unfoldable pub failure_backoff : ℕ → ℕ → ℕ → ℕ
failure_backoff zero min_backoff max_backoff = 0
failure_backoff (suc n) min_backoff max_backoff =
    smaller (saturating_mul min_backoff (2 ^ smaller n 20)) max_backoff

-- `m` is the smaller one of `a` and `b`
unfoldable pub IsSmaller : ℕ → ℕ → ℕ → Type 0
IsSmaller a b m = (m ≤ a) × (m ≤ b) × ((m ≡ a) ⊎ (m ≡ b))

-- a wait that is the first bounded by the second, however often the product saturates
backoff-IsSmaller :
    (x b : ℕ) → b ≤ duration_max → IsSmaller x b (smaller (smaller x duration_max) b)
unfolding IsSmaller
backoff-IsSmaller x b h = ground arith

double :
    (x b : ℕ)
    → b ≤ duration_max
    → IsSmaller
        (2 * smaller (smaller x duration_max) b)
        b
        (smaller (smaller (2 * x) duration_max) b)
unfolding IsSmaller
double x b h = ground arith

-- If the longest wait is at most the largest duration, then the wait is 0 without a failure, after
-- the first failure it is the smaller one of the shortest and the longest wait, up to the 21st
-- failure each failure doubles the wait that was there, bounded by the longest wait, and from then
-- on the wait stays.
pub failure_backoff-doubles :
    (min_backoff max_backoff n : ℕ)
    → max_backoff ≤ duration_max
    → (failure_backoff 0 min_backoff max_backoff ≡ 0)
      × IsSmaller min_backoff max_backoff (failure_backoff 1 min_backoff max_backoff)
      × (((n < 20)
            × IsSmaller
                (2 * failure_backoff (suc n) min_backoff max_backoff)
                max_backoff
                (failure_backoff (suc (suc n)) min_backoff max_backoff))
          ⊎ ((20 ≤ n)
              × (failure_backoff (suc (suc n)) min_backoff max_backoff
                  ≡ failure_backoff (suc n) min_backoff max_backoff)))
unfolding failure_backoff
failure_backoff-doubles a b n h = (
  refl,
  subst (λ x. IsSmaller x b (smaller (smaller (a * 1) duration_max) b)) (mul-one a)
      (backoff-IsSmaller (a * 1) b h),
  elim (Bool-cases (leb 20 n)) [
    | inl late ↦
        let top : smaller (suc n) 20 ≡ smaller n 20 = ground arith in
        inr (ground arith, ap (λ k. smaller (saturating_mul a (2 ^ k)) b) top)
    | inr early ↦
        let here : n ≡ smaller n 20 = ground arith in
        let next : suc n ≡ smaller (suc n) 20 = ground arith in
        let product : 2 * (a * 2 ^ n) ≡ a * 2 ^ suc n =
          sym (mul_left_comm a 2 (2 ^ n)) ∙ ap (λ p. a * p) (sym (pow-succ' 2 n)) in
        let step =
          subst
            (λ x.
              IsSmaller (2 * smaller (smaller (a * 2 ^ n) duration_max) b) b
                (smaller (smaller x duration_max) b))
            product (double (a * 2 ^ n) b h) in
        inl (
          ground arith,
          subst
              (λ k.
                IsSmaller (2 * smaller (saturating_mul a (2 ^ k)) b) b
                  (smaller (saturating_mul a (2 ^ smaller (suc n) 20)) b))
              here
              (subst
                (λ k.
                  IsSmaller (2 * smaller (saturating_mul a (2 ^ n)) b) b
                    (smaller (saturating_mul a (2 ^ k)) b))
                next step),
        )
  ],
)
