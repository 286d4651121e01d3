-- ===== src/Resolve/Answers.antt =====
-- The laws of the plain evaluation of code that is put together by a bind or a loop.
use rototo.Base.{ℕ, ◌+◌, ◌≤◌, List, [], ◌∷◌, ◌≡◌, refl, sym, arith, Bytes, Result, ok}
use rototo.Resolve.Engine.{Engine}
use rototo.Resolve.Ask.{Ask, give, fail, ask, ◌>>=◌, for_each}
use rototo.Resolve.Evaluate.{Session}
use rototo.Resolve.State.{Stop}
use rototo.Resolve.Plain.{answer, evaluate, answer_mono, evaluate_le, and_then-eq-ok}
use rototo.Resolve.Memo.{Answers}

module _ {A B : Type 0} where
  -- one result for each item, in order
  abbrev pub Pointwise : (A → B → Type 0) → List A → List B → Type 0
  Pointwise R [] [] = Unit
  Pointwise R (x ∷ xs) (y ∷ ys) = R x y × Pointwise R xs ys
  Pointwise R _ _ = ⊥

module _ (E : Engine) where
  open E use {Json}

  -- a step of the code of a bind
  abbrev Bound :
      {A B : Type 0} → (Bytes → Result Stop Json) → Ask Json A → (A → Ask Json B) → B → Type 0
  Bound {A = A} values first next b =
      (a : A) × (answer E values first ≡ ok a) × (answer E values (next a) ≡ ok b)

  ask-answer :
      {A : Type 0} (values : Bytes → Result Stop Json) (id : Bytes) (next : Json → Ask Json A)
      (value : Json) (a : A)
      → values id ≡ ok value
      → answer E values (next value) ≡ ok a
      → answer E values (ask id next) ≡ ok a
  unfolding answer
  ask-answer values id next value a first rest = rw first rest

  pub answer-bind :
      {A B : Type 0} (values : Bytes → Result Stop Json) (first : Ask Json A)
      (next : A → Ask Json B) {b : B}
      → answer E values (first >>= next) ≡ ok b
      → Bound values first next b
  unfolding answer ◌>>=◌
  answer-bind values (give a) next h = (a, refl, h)
  answer-bind values (fail e) next h = absurd (cc)
  answer-bind values (ask id k) next h =
      let (value, first, rest) =
        and_then-eq-ok E (values id) (λ v. answer E values (k v >>= next)) h in
      let (a, here, there) = answer-bind values (k value) next rest in
      (a, ask-answer values id k value a first here, there)

  pub bind-answer :
      {A B : Type 0} (values : Bytes → Result Stop Json) (first : Ask Json A)
      (next : A → Ask Json B) (a : A) {b : B}
      → answer E values first ≡ ok a
      → answer E values (next a) ≡ ok b
      → answer E values (first >>= next) ≡ ok b
  unfolding answer ◌>>=◌
  bind-answer values (give c) next a h g = let same : c ≡ a = ground arith in rw same g
  bind-answer values (fail e) next a h g = absurd (cc)
  bind-answer values (ask id k) next a h g =
      let (value, first, rest) = and_then-eq-ok E (values id) (λ v. answer E values (k v)) h in
      rw first (bind-answer values (k value) next a rest g)

module _ (E : Engine) (s : Session E) where
  open E use {Json}

  Answers_more :
      {A : Type 0} (code : Ask Json A) (a : A) (n k : ℕ)
      → n ≤ k
      → answer E (evaluate E n s) code ≡ ok a
      → answer E (evaluate E k s) code ≡ ok a
  Answers_more code a n k h =
      answer_mono E (evaluate E n s) (evaluate E k s) (evaluate_le E n k s h) code

  pub Answers-bind :
      {A B : Type 0} (first : Ask Json A) (next : A → Ask Json B) (b : B)
      → Answers E s (first >>= next) b
      → (a : A) × Answers E s first a × Answers E s (next a) b
  Answers-bind first next b (n, h) =
      let (a, here, there) = answer-bind E (evaluate E n s) first next h in
      (a, (n, here), (n, there))

  pub bind-Answers :
      {A B : Type 0} (first : Ask Json A) (next : A → Ask Json B) (a : A) (b : B)
      → Answers E s first a
      → Answers E s (next a) b
      → Answers E s (first >>= next) b
  bind-Answers first next a b (n, h) (m, g) = (
    n + m,
    bind-answer E (evaluate E (n + m) s) first next a
        (Answers_more first a n (n + m) (omega arith) h)
        (Answers_more (next a) b m (n + m) (omega arith) g),
  )

  pub Answers-give : {A : Type 0} (a b : A) → Answers E s (give a) b → a ≡ b
  unfolding answer
  Answers-give a b (n, h) = ground arith

  pub give-Answers : {A : Type 0} (a : A) → Answers E s (give a) a
  unfolding answer
  give-Answers a = (0, refl)

  pub for_each-Pointwise :
      {A B : Type 0} (f : A → Ask Json B) (xs : List A) (ys : List B)
      → Answers E s (for_each f xs) ys
      → Pointwise (λ x y. Answers E s (f x) y) xs ys
  unfolding for_each
  for_each-Pointwise f [] [] h = tt
  for_each-Pointwise f [] (y ∷ ys) h = let e = Answers-give [] (y ∷ ys) h in absurd (cc)
  for_each-Pointwise f (x ∷ xs) zs h =
      let (y, first, rest) = Answers-bind (f x) (λ y. for_each f xs >>= λ ys. give (y ∷ ys)) zs h in
      let (ys, others, last) = Answers-bind (for_each f xs) (λ ys. give (y ∷ ys)) zs rest in
      let same = Answers-give (y ∷ ys) zs last in
      rw (sym same) (first, for_each-Pointwise f xs ys others)

  pub Pointwise-for_each :
      {A B : Type 0} (f : A → Ask Json B) (xs : List A) (ys : List B)
      → Pointwise (λ x y. Answers E s (f x) y) xs ys
      → Answers E s (for_each f xs) ys
  unfolding for_each
  Pointwise-for_each f [] [] h = give-Answers []
  Pointwise-for_each f [] (y ∷ ys) h = absurd h
  Pointwise-for_each f (x ∷ xs) [] h = absurd h
  Pointwise-for_each f (x ∷ xs) (y ∷ ys) (first, rest) =
      bind-Answers (f x) (λ y. for_each f xs >>= λ ys. give (y ∷ ys)) y (y ∷ ys) first
        (bind-Answers (for_each f xs) (λ ys. give (y ∷ ys)) ys (y ∷ ys)
          (Pointwise-for_each f xs ys rest) (give-Answers (y ∷ ys)))
