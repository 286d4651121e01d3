-- ===== src/Resolve/Plain.antt =====
-- Resolution with neither a cache nor a test for cycles: a variable is evaluated again whenever the
-- code asks for it. More fuel keeps a value.
use mathlib.Core.Path.{subst}
use rototo.Base.{◌-◌, ℕ, zero, suc, ◌+◌, ◌≤◌, ◌≡◌, refl, sym, ap, arith, Bytes, Result, ok, err}
use rototo.Resolve.Engine.{Engine}
use rototo.Resolve.Runtime.{VariableResolution}
use rototo.Resolve.Ask.{Ask, give, fail, ask}
use rototo.Resolve.Evaluate.{Session}
use rototo.Resolve.State.{Stop, failed, out_of_fuel, resolve_variable}

module _ (E : Engine) where
  open E use {Json}

  abbrev pub Values : Type 0
  Values = Bytes → Result Stop Json

  abbrev and_then : {A : Type 0} → Result Stop Json → (Json → Result Stop A) → Result Stop A
  and_then (ok value) next = next value
  and_then (err e) next = err e

  unfoldable pub answer : {A : Type 0} → Values → Ask Json A → Result Stop A
  answer values (give a) = ok a
  answer values (fail e) = err (failed e)
  answer values (ask id next) = and_then (values id) (λ value. answer values (next value))

  abbrev value_field : Result Stop (VariableResolution E) → Result Stop Json
  value_field (ok resolution) = ok resolution.value
  value_field (err e) = err e

  unfoldable pub evaluate : ℕ → Session E → Values
  evaluate zero s id = err out_of_fuel
  evaluate (suc n) s id = value_field (answer (evaluate n s) (resolve_variable E s id))

  pub and_then-eq-ok :
      {A : Type 0} (r : Result Stop Json) (next : Json → Result Stop A) {a : A}
      → and_then r next ≡ ok a
      → (value : Json) × (r ≡ ok value) × (next value ≡ ok a)
  and_then-eq-ok (ok value) next h = (value, refl, h)
  and_then-eq-ok (err e) next h = cc

  value_field-eq-ok :
      (r : Result Stop (VariableResolution E)) {value : Json}
      → value_field r ≡ ok value
      → (resolution : VariableResolution E) × (r ≡ ok resolution) × (resolution.value ≡ value)
  value_field-eq-ok (ok resolution) h = (resolution, refl, ground arith)
  value_field-eq-ok (err e) h = cc

  -- Values that are kept keep the result of the code that asks for them.
  pub answer_mono :
      {A : Type 0} (few more : Values)
      → ((id : Bytes) (value : Json) → few id ≡ ok value → more id ≡ ok value)
      → (code : Ask Json A) {a : A} → answer few code ≡ ok a
      → answer more code ≡ ok a
  unfolding answer
  answer_mono few more keep (give a) h = h
  answer_mono few more keep (fail e) h = cc
  answer_mono few more keep (ask id next) h =
      let (value, first, rest) = and_then-eq-ok (few id) (λ value. answer few (next value)) h in
      rw (keep id value first) (answer_mono few more keep (next value) rest)

  pub evaluate-eq-ok :
      (n : ℕ) (s : Session E) (id : Bytes) {value : Json}
      → evaluate (suc n) s id ≡ ok value
      → (resolution : VariableResolution E) × (answer (evaluate n s) (resolve_variable E s id)
          ≡ ok resolution)
        × (resolution.value ≡ value)
  unfolding evaluate
  evaluate-eq-ok n s id h = value_field-eq-ok (answer (evaluate n s) (resolve_variable E s id)) h

  pub eq-ok-evaluate :
      (n : ℕ) (s : Session E) (id : Bytes) {resolution : VariableResolution E}
      → answer (evaluate n s) (resolve_variable E s id) ≡ ok resolution
      → evaluate (suc n) s id ≡ ok resolution.value
  unfolding evaluate
  eq-ok-evaluate n s id h = ap value_field h

  pub evaluate-suc :
      (n : ℕ) (s : Session E) (id : Bytes) (value : Json)
      → evaluate n s id ≡ ok value
      → evaluate (suc n) s id ≡ ok value
  evaluate-suc zero s id value h = unfold evaluate in cc
  evaluate-suc (suc n) s id value h =
      let (resolution, body, same) = evaluate-eq-ok n s id h in
      rw (sym same) (
        eq-ok-evaluate (suc n) s id (
          answer_mono (evaluate n s) (evaluate (suc n) s) (evaluate-suc n s)
            (resolve_variable E s id) body))

  evaluate_more :
      (k n : ℕ) (s : Session E) (id : Bytes) (value : Json)
      → evaluate n s id ≡ ok value
      → evaluate (k + n) s id ≡ ok value
  evaluate_more zero n s id value h =
      let same : n ≡ 0 + n = omega arith in subst (λ j. evaluate j s id ≡ ok value) same h
  evaluate_more (suc k) n s id value h =
      let same : suc (k + n) ≡ suc k + n = omega arith in
      subst (λ j. evaluate j s id ≡ ok value) same
        (evaluate-suc (k + n) s id value (evaluate_more k n s id value h))

  pub evaluate_le :
      (n k : ℕ) (s : Session E)
      → n ≤ k
      → (id : Bytes) (value : Json) → evaluate n s id ≡ ok value
      → evaluate k s id ≡ ok value
  evaluate_le n k s h id value e =
      let same : (k - n) + n ≡ k = omega (arith, h) in
      subst (λ j. evaluate j s id ≡ ok value) same (evaluate_more (k - n) n s id value e)
