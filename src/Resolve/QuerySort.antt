-- ===== src/Resolve/QuerySort.antt =====
-- The insertion sort of a query (src/resolve.rs): a permutation in the order of the keys.
use rototo.Base.{
  Bool, true, false, List, [], ◌∷◌, ◌++◌, ◌≡◌, ◌≢◌, ◌⊎◌, inl, inr, refl, sym, ◌∙◌, Bytes,
  append-nil,
}
use mathlib.Core.Path.{subst}
use mathlib.Core.List.{Permᴰ}
use mathlib.Core.List.Permᴰ
use rototo.Resolve.Engine.{Engine, Comparison, less, same, greater}
use rototo.Resolve.Query.{
  reverse, Keyed, compare_query_sort_keys, insert_keyed, sort_into, sort_keyed, order_keyed,
}
use rototo.Resolve.KeyOrder.{KeyAfter, compare-KeyAfter, KeyAfter-compare}

module _ {A : Type 0} where
  -- each item and the next one are related
  abbrev pub Adjacent : (A → A → Type 0) → List A → Type 0
  Adjacent R [] = Unit
  Adjacent R (a ∷ []) = Unit
  Adjacent R (a ∷ b ∷ items) = R a b × Adjacent R (b ∷ items)

  snoc-Adjacent :
      (R : A → A → Type 0) (items : List A) (b a : A)
      → Adjacent R (items ++ b ∷ [])
      → R b a
      → Adjacent R ((items ++ b ∷ []) ++ a ∷ [])
  snoc-Adjacent R [] b a h r = (r, tt)
  snoc-Adjacent R (x ∷ []) b a (q, h) r = (q, (r, tt))
  snoc-Adjacent R (x ∷ y ∷ items) b a (q, h) r = (q, snoc-Adjacent R (y ∷ items) b a h r)

  reverse-Adjacent :
      (R : A → A → Type 0) (items : List A)
      → Adjacent R items
      → Adjacent (λ a b. R b a) (reverse items)
  unfolding reverse
  reverse-Adjacent R [] h = tt
  reverse-Adjacent R (a ∷ []) h = tt
  reverse-Adjacent R (a ∷ b ∷ items) (r, h) =
      snoc-Adjacent (λ a b. R b a) (reverse items) b a (reverse-Adjacent R (b ∷ items) h) r

  reverse-perm : (items : List A) → Permᴰ (reverse items) items
  unfolding reverse
  reverse-perm [] = Permᴰ.nil
  reverse-perm (a ∷ items) = Permᴰ.trans (Permᴰ.middle a (reverse items) []) (
      Permᴰ.cons refl
        (subst (λ l. Permᴰ l items) (sym (append-nil (reverse items))) (reverse-perm items)))

module _ (E : Engine) where
  open E use {Json}

  abbrev pub Item : Type 0
  Item = Json × Bytes × Json

  -- the key does not come after that of the next item, or the next one's comes before it
  abbrev pub InOrder : Item → Item → Type 0
  InOrder a b = (¬ KeyAfter E a.0 b.0) ⊎ KeyAfter E b.0 a.0

  insert_keyed-perm :
      (item : Item) (keyed : Keyed E) → Permᴰ (insert_keyed E item keyed) (item ∷ keyed)
  unfolding insert_keyed
  insert_keyed-perm item [] = Permᴰ.refl (item ∷ [])
  insert_keyed-perm item (other ∷ keyed) =
      go (compare_query_sort_keys E other.0 item.0)
        (Permᴰ.trans (Permᴰ.cons refl (insert_keyed-perm item keyed)) (Permᴰ.swap refl refl))
    where
      go :
          (c : Comparison)
          → Permᴰ (other ∷ insert_keyed E item keyed) (item ∷ other ∷ keyed)
          → Permᴰ
              (elim c as (λ c. Keyed E) [
                | greater ↦ item ∷ other ∷ keyed
                | _ ↦ other ∷ insert_keyed E item keyed
              ])
              (item ∷ other ∷ keyed)
      go greater behind = Permᴰ.refl (item ∷ other ∷ keyed)
      go less behind = behind
      go same behind = behind

  sort_into-perm : (sorted keyed : Keyed E) → Permᴰ (sort_into E sorted keyed) (sorted ++ keyed)
  unfolding sort_into
  sort_into-perm sorted [] =
      subst (λ l. Permᴰ sorted l) (sym (append-nil sorted)) (Permᴰ.refl sorted)
  sort_into-perm sorted (item ∷ keyed) =
      Permᴰ.trans (sort_into-perm (insert_keyed E item sorted) keyed) (
        Permᴰ.trans (Permᴰ.append_right keyed (insert_keyed-perm item sorted))
          (Permᴰ.symm (Permᴰ.middle item sorted keyed)))

  not_after :
      (other item : Item) (c : Comparison)
      → compare_query_sort_keys E other.0 item.0 ≡ c
      → c ≢ greater
      → InOrder other item
  not_after other item c e different =
      inl (λ after. different (sym e ∙ KeyAfter-compare E other.0 item.0 after))

  insert_behind :
      (before item : Item) (keyed : Keyed E)
      → InOrder before item
      → Adjacent InOrder (before ∷ keyed)
      → Adjacent InOrder (before ∷ insert_keyed E item keyed)
  unfolding insert_keyed
  insert_behind before item [] first h = (first, tt)
  insert_behind before item (other ∷ keyed) first (q, h) =
      go (compare_query_sort_keys E other.0 item.0) refl
        (λ order. insert_behind other item keyed order h)
    where
      go :
          (c : Comparison)
          → compare_query_sort_keys E other.0 item.0 ≡ c
          → (InOrder other item → Adjacent InOrder (other ∷ insert_keyed E item keyed))
          → Adjacent InOrder (
              before ∷ elim c as (λ c. Keyed E) [
                | greater ↦ item ∷ other ∷ keyed
                | _ ↦ other ∷ insert_keyed E item keyed
              ])
      go greater e behind = (first, (inr (compare-KeyAfter E other.0 item.0 e), h))
      go less e behind = (q, behind (not_after other item less e (λ d. cc)))
      go same e behind = (q, behind (not_after other item same e (λ d. cc)))

  insert_keyed-Adjacent :
      (item : Item) (keyed : Keyed E)
      → Adjacent InOrder keyed
      → Adjacent InOrder (insert_keyed E item keyed)
  unfolding insert_keyed
  insert_keyed-Adjacent item [] h = tt
  insert_keyed-Adjacent item (other ∷ keyed) h = go (compare_query_sort_keys E other.0 item.0) refl
    where
      go :
          (c : Comparison)
          → compare_query_sort_keys E other.0 item.0 ≡ c
          → Adjacent InOrder (elim c as (λ c. Keyed E) [
            | greater ↦ item ∷ other ∷ keyed
            | _ ↦ other ∷ insert_keyed E item keyed
          ])
      go greater e = (inr (compare-KeyAfter E other.0 item.0 e), h)
      go less e = insert_behind other item keyed (not_after other item less e (λ d. cc)) h
      go same e = insert_behind other item keyed (not_after other item same e (λ d. cc)) h

  sort_into-Adjacent :
      (sorted keyed : Keyed E)
      → Adjacent InOrder sorted
      → Adjacent InOrder (sort_into E sorted keyed)
  unfolding sort_into
  sort_into-Adjacent sorted [] h = h
  sort_into-Adjacent sorted (item ∷ keyed) h =
      sort_into-Adjacent (insert_keyed E item sorted) keyed (insert_keyed-Adjacent item sorted h)

  -- the items in the ascending or the descending order of their keys
  abbrev pub AreOrdered : Bool → Keyed E → Keyed E → Type 0
  AreOrdered false keyed sorted = Permᴰ sorted keyed × Adjacent InOrder sorted
  AreOrdered true keyed sorted = Permᴰ sorted keyed × Adjacent (λ a b. InOrder b a) sorted

  pub order_keyed-AreOrdered :
      (descending : Bool) (keyed : Keyed E)
      → AreOrdered descending keyed (order_keyed E descending keyed)
  order_keyed-AreOrdered false keyed = (sort_into-perm [] keyed, sort_into-Adjacent [] keyed tt)
  order_keyed-AreOrdered true keyed = (
    Permᴰ.trans (reverse-perm (sort_keyed E keyed)) (sort_into-perm [] keyed),
    reverse-Adjacent InOrder (sort_keyed E keyed) (sort_into-Adjacent [] keyed tt),
  )
