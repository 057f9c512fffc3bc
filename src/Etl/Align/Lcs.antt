-- ===== src/Etl/Align/Lcs.antt =====
-- The length of a longest common subsequence, by its recurrence.
use Prim.Native.Nat.{max}
use wird.Prelude.{◌≡◌, refl, ℕ, ◌+◌, ◌≤◌, List, [], ◌∷◌, HasEq, ◌==◌, arith, if◌then◌else◌}

module _ {A : Type 0} ⦃e : HasEq A⦄ where
  unfoldable pub lcs : List A → List A → ℕ
  lcs [] b = 0
  lcs (x ∷ a) [] = 0
  lcs (x ∷ a) (y ∷ b) =
      let both = lcs a b in
      let left = lcs a (y ∷ b) in
      let right = lcs (x ∷ a) b in if x == y then both + 1 else max left right

  pub lcs-nil : (a : List A) → lcs a [] ≡ 0
  unfolding lcs
  lcs-nil [] = refl
  lcs-nil (x ∷ a) = refl

  -- One word more on the left is no loss, if one word more on the right is one match more at most.
  left_from :
      (x : A) (a b : List A)
      → ((y : A) (c : List A) → lcs a (y ∷ c) ≤ lcs a c + 1)
      → lcs a b ≤ lcs (x ∷ a) b
  unfolding lcs
  left_from x a [] h = omega (arith, lcs-nil a)
  left_from x a (y ∷ b) h = ground (arith, h y b)

  right_one : (a : List A) (y : A) (b : List A) → lcs a (y ∷ b) ≤ lcs a b + 1
  unfolding lcs
  right_one [] y b = omega arith
  right_one (x ∷ a) y b = ground (arith, left_from x a b (right_one a), right_one a y b)

  pub lcs-left : (x : A) (a b : List A) → lcs a b ≤ lcs (x ∷ a) b
  lcs-left x a b = left_from x a b (right_one a)

  right_from :
      (y : A) (a b : List A)
      → ((x : A) (c : List A) → lcs (x ∷ c) b ≤ lcs c b + 1)
      → lcs a b ≤ lcs a (y ∷ b)
  unfolding lcs
  right_from y [] b h = omega arith
  right_from y (x ∷ a) b h = ground (arith, h x a)

  left_one : (b : List A) (x : A) (a : List A) → lcs (x ∷ a) b ≤ lcs a b + 1
  unfolding lcs
  left_one [] x a = omega arith
  left_one (y ∷ b) x a = ground (arith, right_from y a b (left_one b), left_one b x a)

  pub lcs-right : (y : A) (a b : List A) → lcs a b ≤ lcs a (y ∷ b)
  lcs-right y a b = right_from y a b (left_one b)
