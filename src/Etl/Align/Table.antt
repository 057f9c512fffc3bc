-- ===== src/Etl/Align/Table.antt =====
-- The table holds, for each part that is left of the two texts, the length of their longest common
-- subsequence.
use wird.Prelude.{
  ◌≡◌, refl, ap, ℕ, zero, suc, ◌≤◌, List, [], ◌∷◌, HasEq, length, drop, get_or, arith,
}
use wird.Etl.Align.{first_of, head_row, cell, dp_row, zeros, dp_table}
use wird.Etl.Align.Lcs.{lcs}

module _ {A : Type 0} ⦃e : HasEq A⦄ where
  abbrev lcs_row : List A → List A → List ℕ
  lcs_row a [] = lcs a [] ∷ []
  lcs_row a (y ∷ b) = lcs a (y ∷ b) ∷ lcs_row a b

  abbrev lcs_table : List A → List A → List (List ℕ)
  lcs_table [] b = lcs_row [] b ∷ []
  lcs_table (x ∷ a) b = lcs_row (x ∷ a) b ∷ lcs_table a b

  first_of-row : (a b : List A) → first_of (lcs_row a b) ≡ lcs a b
  first_of-row a [] = refl
  first_of-row a (y ∷ b) = refl

  zeros-row : (b : List A) → zeros b ≡ lcs_row [] b
  unfolding lcs
  zeros-row [] = refl
  zeros-row (y ∷ b) = ap (λ l. 0 ∷ l) (zeros-row b)

  dp_row-row : (x : A) (a b : List A) → dp_row x b (lcs_row a b) ≡ lcs_row (x ∷ a) b
  unfolding dp_row lcs
  dp_row-row x a [] = refl
  dp_row-row x a (y ∷ b) = rw (dp_row-row x a b, first_of-row a b, first_of-row (x ∷ a) b) refl

  head_row-table : (a b : List A) → head_row (lcs_table a b) ≡ lcs_row a b
  head_row-table [] b = refl
  head_row-table (x ∷ a) b = refl

  dp_table-table : (a b : List A) → dp_table a b ≡ lcs_table a b
  unfolding dp_table
  dp_table-table [] b = ap (λ r. r ∷ []) (zeros-row b)
  dp_table-table (x ∷ a) b = rw (dp_table-table a b, head_row-table a b, dp_row-row x a b) refl

  row_at :
      (a b : List A) (i : ℕ) → i ≤ length a → get_or (lcs_table a b) i [] ≡ lcs_row (drop i a) b
  row_at [] b zero h = refl
  row_at (x ∷ a) b zero h = refl
  row_at [] b (suc i) h = absurd (omega arith)
  row_at (x ∷ a) b (suc i) h = row_at a b i (omega arith)

  cell_at : (a b : List A) (j : ℕ) → j ≤ length b → get_or (lcs_row a b) j 0 ≡ lcs a (drop j b)
  cell_at a [] zero h = refl
  cell_at a (y ∷ b) zero h = refl
  cell_at a [] (suc j) h = absurd (omega arith)
  cell_at a (y ∷ b) (suc j) h = cell_at a b j (omega arith)

  pub cell-dp_table :
      (a b : List A) (i j : ℕ)
      → i ≤ length a
      → j ≤ length b
      → cell (dp_table a b) i j ≡ lcs (drop i a) (drop j b)
  cell-dp_table a b i j h k = rw (dp_table-table a b, row_at a b i h) (cell_at (drop i a) b j k)
