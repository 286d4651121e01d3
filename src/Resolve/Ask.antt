-- ===== src/Resolve/Ask.antt =====
-- Code that holds a `&mut dyn RefResolver` (src/expression/mod.rs): it returns, fails, or asks the
-- resolver for the value of a variable and goes on with the answer.
use rototo.Base.{List, [], ◌∷◌, Bytes, Result, ok, err}
use rototo.Resolve.Runtime.{RototoError}

pub data Ask (V A : Type 0) : Type 0 where
  give : A → Ask V A
  fail : RototoError → Ask V A
  ask : Bytes → (V → Ask V A) → Ask V A

module _ {V A B : Type 0} where
  infixl 5 ◌>>=◌
  unfoldable pub ◌>>=◌ : Ask V A → (A → Ask V B) → Ask V B
  give a >>= f = f a
  fail e >>= f = fail e
  ask id k >>= f = ask id (λ v. k v >>= f)

module _ {V A : Type 0} where
  abbrev pub give_result : Result RototoError A → Ask V A
  give_result (ok a) = give a
  give_result (err e) = fail e

module _ {V A B : Type 0} where
  -- one after the other, the results in order
  unfoldable pub for_each : (A → Ask V B) → List A → Ask V (List B)
  for_each f [] = give []
  for_each f (x ∷ xs) = do y ← f x; ys ← for_each f xs; give (y ∷ ys)
