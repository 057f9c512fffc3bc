-- ===== src/Etl/Align.antt =====
-- alignLCS of server/cmd/etl/glosses_fr.go: the table of the lengths, and the walk along it.
pub mod Lcs
pub mod Table
pub mod Best
use Prim.Native.Nat.{max}
use wird.Prelude.{
  ℕ, zero, suc, ◌+◌, Bool, true, false, Option, none, some, List, [], ◌∷◌, HasEq, ◌==◌, leb, get_or,
  if◌then◌else◌,
}

abbrev pub first_of : List ℕ → ℕ
first_of [] = 0
first_of (n ∷ row) = n

abbrev pub head_row : List (List ℕ) → List ℕ
head_row [] = []
head_row (row ∷ rows) = row

abbrev pub cell : List (List ℕ) → ℕ → ℕ → ℕ
cell dp i j = get_or (get_or dp i []) j 0

module _ {A : Type 0} ⦃e : HasEq A⦄ where
  -- dp[i], from dp[i+1], for the text's word `x`.
  unfoldable pub dp_row : A → List A → List ℕ → List ℕ
  dp_row x [] below = 0 ∷ []
  dp_row x (y ∷ b) [] = []
  dp_row x (y ∷ b) (d ∷ below) =
      let rest = dp_row x b below in
      (if x == y then first_of below + 1 else max d (first_of rest)) ∷ rest

  abbrev pub zeros : List A → List ℕ
  zeros [] = 0 ∷ []
  zeros (y ∷ b) = 0 ∷ zeros b

  unfoldable pub dp_table : List A → List A → List (List ℕ)
  unfolding dp_row
  dp_table [] b = zeros b ∷ []
  dp_table (x ∷ a) b = let rows = dp_table a b in dp_row x b (head_row rows) ∷ rows

  -- The last loop, on what is left of both. Index -1 is `none`.
  unfoldable pub align_loop : List (List ℕ) → ℕ → ℕ → List A → List A → List (Option ℕ)
  align_loop dp i j [] b = []
  align_loop dp i j (x ∷ a) [] = none ∷ align_loop dp (suc i) j a []
  align_loop dp i j (x ∷ a) (y ∷ b) =
      let both = align_loop dp (suc i) (suc j) a b in
      let skipped = align_loop dp i (suc j) (x ∷ a) b in
      let unmatched = align_loop dp (suc i) j a (y ∷ b) in
      if x == y
      then some j ∷ both
      else if leb (cell dp (suc i) j) (cell dp i (suc j))
      then skipped
      else none ∷ unmatched

  unfoldable pub align_lcs : List A → List A → List (Option ℕ)
  unfolding dp_table align_loop
  align_lcs a b = align_loop (dp_table a b) 0 0 a b
