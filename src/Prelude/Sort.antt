-- ===== src/Prelude/Sort.antt =====
-- `slices.SortFunc` as an insertion sort by a Boolean order: what it keeps, that it orders, and
-- that under a total order the result depends on the members alone.
use mathlib.Core.Bool.{false≢true}
use mathlib.Core.Path.{ap₂}
use wird.Prelude.{
  ap, suc, length, map, ◌≡◌, refl, sym, Has-head, All-at, ||-eq-true, ◌∙◌, Bool, true, false, ◌||◌,
  List, [], ◌∷◌, ◌⊎◌, inl, inr, arith, HasEq, ◌==◌, contains, IsNodup, All, if◌then◌else◌,
  Bool-cases,
}

module _ {ℓ} {A : Type ℓ} (before : A → A → Bool) where
  unfoldable pub insert : A → List A → List A
  insert a [] = a ∷ []
  insert a (x ∷ xs) = let rest = insert a xs in if before a x then a ∷ x ∷ xs else x ∷ rest

  unfoldable pub sort : List A → List A
  unfolding insert
  sort [] = []
  sort (x ∷ xs) = insert x (sort xs)

  abbrev pub IsSorted : List A → Type 0
  IsSorted [] = Unit {0}
  IsSorted (x ∷ xs) = All (λ y. before x y ≡ true) xs × IsSorted xs

  -- What sorting an ordered list asks of the order.
  pub record IsTotalOrder : Type ℓ where
    pub total : (a b : A) → (before a b ≡ true) ⊎ (before b a ≡ true)
    pub trans : (a b c : A) → before a b ≡ true → before b c ≡ true → before a c ≡ true

  All-insert : (P : A → Type 0) (a : A) (xs : List A) → P a → All P xs → All P (insert a xs)
  unfolding insert
  All-insert P a [] h k = (h, tt)
  All-insert P a (x ∷ xs) h k = elim (Bool-cases (before a x)) [
    | inl e ↦ rw e (h, k)
    | inr e ↦ rw e (k.0, All-insert P a xs h k.1)
  ]

  pub All-sort : (P : A → Type 0) (xs : List A) → All P xs → All P (sort xs)
  unfolding sort
  All-sort P [] h = tt
  All-sort P (x ∷ xs) h = All-insert P x (sort xs) h.0 (All-sort P xs h.1)

  length-insert : (a : A) (xs : List A) → length (insert a xs) ≡ suc (length xs)
  unfolding insert
  length-insert a [] = refl
  length-insert a (x ∷ xs) = ground (arith, length-insert a xs)

  pub length-sort : (xs : List A) → length (sort xs) ≡ length xs
  unfolding sort
  length-sort [] = refl
  length-sort (x ∷ xs) = length-insert x (sort xs) ∙ ap suc (length-sort xs)

  module _ (o : IsTotalOrder) where
    below :
        (a x : A) (xs : List A)
        → before a x ≡ true
        → All (λ y. before x y ≡ true) xs
        → All (λ y. before a y ≡ true) xs
    below a x [] h k = tt
    below a x (y ∷ ys) h k = (o.trans a x y h k.0, below a x ys h k.1)

    insert-IsSorted : (a : A) (xs : List A) → IsSorted xs → IsSorted (insert a xs)
    unfolding insert
    insert-IsSorted a [] h = (tt, tt)
    insert-IsSorted a (x ∷ xs) h = elim (Bool-cases (before a x)) [
      | inl e ↦ rw e ((e, below a x xs e h.0), h)
      | inr e ↦
          let flipped : before x a ≡ true = elim (o.total a x) [ inl t ↦ cc | inr t ↦ t ] in
          rw e (All-insert (λ y. before x y ≡ true) a xs flipped h.0, insert-IsSorted a xs h.1)
    ]

    -- The result is in order.
    pub sort-IsSorted : (xs : List A) → IsSorted (sort xs)
    unfolding sort
    sort-IsSorted [] = tt
    sort-IsSorted (x ∷ xs) = insert-IsSorted x (sort xs) (sort-IsSorted xs)

module _ {ℓ} {A : Type ℓ} (before : A → A → Bool) ⦃e : HasEq A⦄ where
  contains-insert :
      (a b : A) (xs : List A) → contains (insert before a xs) b ≡ (b == a || contains xs b)
  unfolding insert
  contains-insert a b [] = refl
  contains-insert a b (x ∷ xs) = ground (arith, contains-insert a b xs)

  -- Sorting keeps the members.
  pub contains-sort : (xs : List A) (b : A) → contains (sort before xs) b ≡ contains xs b
  unfolding sort
  contains-sort [] b = refl
  contains-sort (x ∷ xs) b = contains-insert x b (sort before xs) ∙ rw (contains-sort xs b)

  insert-IsNodup :
      (a : A) (xs : List A) → contains xs a ≡ false → IsNodup xs → IsNodup (insert before a xs)
  unfolding insert
  insert-IsNodup a [] n h = (refl, tt)
  insert-IsNodup a (x ∷ xs) n h =
      ground (arith, contains-insert a x xs, e.eqb_iff a x, e.eqb_iff x a, insert-IsNodup a xs)

  pub sort-IsNodup : (xs : List A) → IsNodup xs → IsNodup (sort before xs)
  unfolding sort
  sort-IsNodup [] h = tt
  sort-IsNodup (x ∷ xs) h =
      insert-IsNodup x (sort before xs) (contains-sort xs x ∙ h.0) (sort-IsNodup xs h.1)

-- Sorting keeps the values of a function on the members.
module _ {ℓ κ} {A : Type ℓ} {B : Type κ} (before : A → A → Bool) (f : A → B) ⦃e : HasEq B⦄ where
  contains-map-insert :
      (a : A) (b : B) (xs : List A)
      → contains (map f (insert before a xs)) b ≡ (b == f a || contains (map f xs) b)
  unfolding insert
  contains-map-insert a b [] = refl
  contains-map-insert a b (x ∷ xs) = ground (arith, contains-map-insert a b xs)

  pub contains-map-sort :
      (xs : List A) (b : B) → contains (map f (sort before xs)) b ≡ contains (map f xs) b
  unfolding sort
  contains-map-sort [] b = refl
  contains-map-sort (x ∷ xs) b =
      contains-map-insert x b (sort before xs) ∙ rw (contains-map-sort xs b)

-- Under an order in which no two differ and each stands before the other, an ordered list without
-- repetition is determined by its members.
module _ {ℓ} {A : Type ℓ} (before : A → A → Bool) ⦃e : HasEq A⦄ where
  least_unique :
      (antisym : (a b : A) → before a b ≡ true → before b a ≡ true → a ≡ b)
      → (x y : A) (xs ys : List A) → IsSorted before (x ∷ xs)
      → IsSorted before (y ∷ ys)
      → ((b : A) → contains (x ∷ xs) b ≡ contains (y ∷ ys) b)
      → x ≡ y
  least_unique antisym x y xs ys h k same =
      let x_in : (x == y || contains ys x) ≡ true = sym (same x) ∙ Has-head x xs in
      let y_in : (y == x || contains xs y) ≡ true = same y ∙ Has-head y ys in
      elim (||-eq-true (x == y) (contains ys x) x_in) [
        | inl here ↦ (e.eqb_iff x y).0 here
        | inr later ↦ elim (||-eq-true (y == x) (contains xs y) y_in) [
          | inl here ↦ sym ((e.eqb_iff y x).0 here)
          | inr below ↦
              antisym x y (All-at (λ z. before x z ≡ true) xs y h.0 below)
                (All-at (λ z. before y z ≡ true) ys x k.0 later)
        ]
      ]

  pub sorted_unique :
      (antisym : (a b : A) → before a b ≡ true → before b a ≡ true → a ≡ b)
      → (xs ys : List A) → IsSorted before xs
      → IsNodup xs
      → IsSorted before ys
      → IsNodup ys
      → ((b : A) → contains xs b ≡ contains ys b)
      → xs ≡ ys
  sorted_unique antisym [] [] h n k m same = refl
  sorted_unique antisym [] (y ∷ ys) h n k m same = absurd (false≢true (same y ∙ Has-head y ys))
  sorted_unique antisym (x ∷ xs) [] h n k m same =
      absurd (false≢true (sym (same x) ∙ Has-head x xs))
  sorted_unique antisym (x ∷ xs) (y ∷ ys) h n k m same =
      let first = least_unique antisym x y xs ys h k same in
      let rest = λ (b : A). tail-same b first in
      ap₂ (λ a l. a ∷ l) first (sorted_unique antisym xs ys h.1 n.1 k.1 m.1 rest)
    where
      tail-same : (b : A) → x ≡ y → contains xs b ≡ contains ys b
      tail-same b f = ground (arith, same b, f, n.0, m.0, e.eqb_iff b x, e.eqb_iff b y)
