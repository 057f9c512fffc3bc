-- ===== src/Prelude/Map.antt =====
-- Go maps as association lists: a missing key reads `none`, a write replaces.
use wird.Prelude.{
  ◌≡◌, refl, subst, ◌∙◌, Bool, false, Bool-cases, inl, inr, Option, none, some, List, [], ◌∷◌,
  arith, HasEq, ◌==◌, if◌then◌else◌,
}

abbrev pub Map {ℓ κ} : Type ℓ → Type κ → Type (ℓ ⊔ κ)
Map K V = List (K × V)

abbrev pub filter_some {κ} : {V : Type κ} → (V → Bool) → Option V → Option V
filter_some p none = none
filter_some p (some v) = if p v then some v else none

module _ {ℓ κ} {K : Type ℓ} {V : Type κ} ⦃e : HasEq K⦄ where
  unfoldable pub get : Map K V → K → Option V
  get [] k = none
  get ((j, v) ∷ m) k = if j == k then some v else get m k

  unfoldable pub put : Map K V → K → V → Map K V
  put [] k v = (k, v) ∷ []
  put ((j, w) ∷ m) k v = if j == k then (k, v) ∷ m else (j, w) ∷ put m k v

  pub get-put :
      (m : Map K V) (k j : K) (v : V) → get (put m k v) j ≡ (if k == j then some v else get m j)
  unfolding get put
  get-put [] k j v = refl
  get-put ((i, w) ∷ m) k j v =
      ground (arith, e.eqb_iff k j, e.eqb_iff i k, e.eqb_iff i j, get-put m k j v)

  -- Every key has one entry.
  abbrev pub IsUnique : Map K V → Type κ
  IsUnique [] = Unit
  IsUnique ((k, v) ∷ m) = (get m k ≡ none) × IsUnique m

  -- The entries that pass a test, as the deletion of the others in a range over the map.
  unfoldable pub retain : (V → Bool) → Map K V → Map K V
  retain p [] = []
  retain p ((k, v) ∷ m) = let rest = retain p m in if p v then (k, v) ∷ rest else rest

  pub get-retain :
      (p : V → Bool) (m : Map K V) (j : K)
      → IsUnique m
      → get (retain p m) j ≡ filter_some p (get m j)
  unfolding get retain
  get-retain p [] j h = refl
  get-retain p ((k, v) ∷ m) j h = elim (Bool-cases (k == j)) [
    | inl same ↦ ground (
      arith,
      same,
      get-retain p m j h.1,
      subst (λ i. get m i ≡ none) ((e.eqb_iff k j).0 same) h.0,
    )
    | inr other ↦ ground (arith, other, get-retain p m j h.1)
  ]

  -- What is deleted is not found.
  get-retain-none :
      (p : V → Bool) (m : Map K V) (j : K) → get m j ≡ none → get (retain p m) j ≡ none
  unfolding get retain
  get-retain-none p [] j h = refl
  get-retain-none p ((k, v) ∷ m) j h = ground (arith, get-retain-none p m j)

  pub retain-IsUnique : (p : V → Bool) (m : Map K V) → IsUnique m → IsUnique (retain p m)
  unfolding retain
  retain-IsUnique p [] h = tt
  retain-IsUnique p ((k, v) ∷ m) h =
      ground (arith, get-retain-none p m k h.0, retain-IsUnique p m h.1)

  get-put_other :
      (m : Map K V) (k j : K) (v : V) → (k == j) ≡ false → get m j ≡ none → get (put m k v) j ≡ none
  get-put_other m k j v n h = get-put m k j v ∙ rw (n, h) refl

  pub put-IsUnique : (m : Map K V) (k : K) (v : V) → IsUnique m → IsUnique (put m k v)
  unfolding put get
  put-IsUnique [] k v h = (refl, tt)
  put-IsUnique ((j, w) ∷ m) k v h = elim (Bool-cases (j == k)) [
    | inl same ↦ rw same (subst (λ i. get m i ≡ none) ((e.eqb_iff j k).0 same) h.0, h.1)
    | inr other ↦ rw other (
      get-put_other m k j v (ground (arith, other, e.eqb_iff j k, e.eqb_iff k j)) h.0,
      put-IsUnique m k v h.1,
    )
  ]
