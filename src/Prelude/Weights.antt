-- ===== src/Prelude/Weights.antt =====
-- The sum of a weight over the entries of a map, and what a write changes of it.
use wird.Prelude.{
  ◌≡◌, refl, ap, ℕ, ◌+◌, Bool, ◌++◌, Bool-cases, inl, inr, Option, none, some, List, [], ◌∷◌, HasEq,
  ◌==◌, arith,
}
use wird.Prelude.Map.{Map, get, put}
use wird.Prelude.Sort.{insert, sort}

module _ {ℓ κ} {K : Type ℓ} {V : Type κ} (weight : K → V → ℕ) where
  abbrev pub weigh : Map K V → ℕ
  weigh [] = 0
  weigh ((k, v) ∷ m) = weight k v + weigh m

  abbrev pub weight_of : K → Option V → ℕ
  weight_of k none = 0
  weight_of k (some v) = weight k v

  -- A write puts the new value's weight in the place of the old one's.
  pub weigh-put :
      ⦃e : HasEq K⦄ (m : Map K V) (k : K) (v : V)
      → weigh (put m k v) + weight_of k (get m k) ≡ weigh m + weight k v
  unfolding get put
  weigh-put [] k v = omega arith
  weigh-put ⦃e = e⦄ ((j, w) ∷ m) k v = elim (Bool-cases (j == k)) [
    | inl same ↦
        let one : weight j w ≡ weight k w = ap (λ i. weight i w) ((e.eqb_iff j k).0 same) in
        rw (same, get, put) (omega (arith, one))
    | inr other ↦ rw (other, get, put) (omega (arith, weigh-put m k v))
  ]

module _ {ℓ} {A : Type ℓ} (f : A → ℕ) where
  abbrev pub total : List A → ℕ
  total [] = 0
  total (x ∷ xs) = f x + total xs

  pub total-append : (xs ys : List A) → total (xs ++ ys) ≡ total xs + total ys
  total-append [] ys = omega arith
  total-append (x ∷ xs) ys = omega (arith, total-append xs ys)

  module _ (before : A → A → Bool) where
    total-insert : (a : A) (xs : List A) → total (insert before a xs) ≡ f a + total xs
    unfolding insert
    total-insert a [] = refl
    total-insert a (x ∷ xs) = ground (arith, total-insert a xs)

    -- Sorting keeps a sum.
    pub total-sort : (xs : List A) → total (sort before xs) ≡ total xs
    unfolding sort
    total-sort [] = refl
    total-sort (x ∷ xs) = omega (arith, total-insert x (sort before xs), total-sort xs)
