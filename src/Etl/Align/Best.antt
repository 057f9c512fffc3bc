-- ===== src/Etl/Align/Best.antt =====
-- The walk along the table pairs equal words in order, and as many as can be.
use wird.Prelude.{
  ◌≡◌, refl, ap, ◌∙◌, ℕ, zero, suc, ◌+◌, ◌≤◌, ◌<◌, true, false, Option, none, some, List, [], ◌∷◌,
  HasEq, ◌==◌, eqb_refl, length, drop, get_elem?, leb, Bool-cases, inl, inr, arith,
}
use wird.Etl.Align.{cell, dp_table, align_loop, align_lcs}
use wird.Etl.Align.Lcs.{lcs, lcs-nil, lcs-left, lcs-right}
use wird.Etl.Align.Table.{cell-dp_table}

-- How many words have a partner.
unfoldable pub matched : List (Option ℕ) → ℕ
matched [] = 0
matched (none ∷ out) = matched out
matched (some j ∷ out) = matched out + 1

module _ {A : Type 0} ⦃e : HasEq A⦄ where
  -- Each word's partner is an equal word, no earlier than `low` and after the partners before it.
  abbrev pub IsPairing : List A → ℕ → List A → List (Option ℕ) → Type 0
  IsPairing b low [] [] = Unit {0}
  IsPairing b low [] (o ∷ out) = true ≡ false
  IsPairing b low (x ∷ a) [] = true ≡ false
  IsPairing b low (x ∷ a) (none ∷ out) = IsPairing b low a out
  IsPairing b low (x ∷ a) (some j ∷ out) =
      (low ≤ j) × (get_elem? b j ≡ some x) × IsPairing b (suc j) a out

  at_drop :
      (b : List A) (j : ℕ) (y : A) (rest : List A)
      → drop j b ≡ y ∷ rest
      → (get_elem? b j ≡ some y) × (drop (suc j) b ≡ rest) × (j < length b)
  at_drop [] zero y rest h = absurd cc
  at_drop [] (suc j) y rest h = absurd cc
  at_drop (x ∷ b) zero y rest h = (cc, cc, omega arith)
  at_drop (x ∷ b) (suc j) y rest h =
      let (here, later, inside) = at_drop b j y rest h in (here, later, omega (arith, inside))

  lower :
      (b : List A) (low high : ℕ) (a : List A) (out : List (Option ℕ))
      → low ≤ high
      → IsPairing b high a out
      → IsPairing b low a out
  lower b low high [] [] h p = tt
  lower b low high [] (o ∷ out) h p = p
  lower b low high (x ∷ a) [] h p = p
  lower b low high (x ∷ a) (none ∷ out) h p = lower b low high a out h p
  lower b low high (x ∷ a) (some j ∷ out) h p = (omega (arith, p.0), p.1, p.2)

  -- No pairing matches more than a longest common subsequence.
  lcs-drop_le :
      (a b : List A) (low high : ℕ) → low ≤ high → lcs a (drop high b) ≤ lcs a (drop low b)
  lcs-drop_le a b zero zero h = omega arith
  lcs-drop_le a b (suc low) zero h = absurd (omega arith)
  lcs-drop_le a [] zero (suc high) h = omega arith
  lcs-drop_le a [] (suc low) (suc high) h = omega arith
  lcs-drop_le a (y ∷ b) zero (suc high) h =
      omega (arith, lcs-drop_le a b zero high (omega arith), lcs-right y a b)
  lcs-drop_le a (y ∷ b) (suc low) (suc high) h = lcs-drop_le a b low high (omega arith)

  drop_at : (b : List A) (j : ℕ) (x : A) → get_elem? b j ≡ some x → drop j b ≡ x ∷ drop (suc j) b
  drop_at [] j x h = cc
  drop_at (y ∷ b) zero x h = cc
  drop_at (y ∷ b) (suc j) x h = drop_at b j x h

  lcs_same : (x : A) (a b : List A) → lcs (x ∷ a) (x ∷ b) ≡ lcs a b + 1
  unfolding lcs
  lcs_same x a b = rw (eqb_refl x) refl

  matched-le-lcs :
      (b : List A) (low : ℕ) (a : List A) (out : List (Option ℕ))
      → IsPairing b low a out
      → matched out ≤ lcs a (drop low b)
  unfolding matched
  matched-le-lcs b low [] [] p = omega arith
  matched-le-lcs b low [] (o ∷ out) p = absurd cc
  matched-le-lcs b low (x ∷ a) [] p = absurd cc
  matched-le-lcs b low (x ∷ a) (none ∷ out) p =
      omega (arith, matched-le-lcs b low a out p, lcs-left x a (drop low b))
  matched-le-lcs b low (x ∷ a) (some j ∷ out) p =
      let rest = matched-le-lcs b (suc j) a out p.2 in
      let here : lcs (x ∷ a) (drop j b) ≡ lcs a (drop (suc j) b) + 1 =
        ap (lcs (x ∷ a)) (drop_at b j x p.1) ∙ lcs_same x a (drop (suc j) b) in
      omega (arith, rest, here, lcs-drop_le (x ∷ a) b low j p.0)

  module _ (a0 b0 : List A) where
    align_loop-IsPairing :
        (i j : ℕ) (a b : List A)
        → drop j b0 ≡ b
        → IsPairing b0 j a (align_loop (dp_table a0 b0) i j a b)
    unfolding align_loop
    align_loop-IsPairing i j [] b h = tt
    align_loop-IsPairing i j (x ∷ a) [] h = align_loop-IsPairing (suc i) j a [] h
    align_loop-IsPairing i j (x ∷ a) (y ∷ b) h = elim (Bool-cases (x == y)) [
      | inl same ↦
          let (here, later, inside) = at_drop b0 j y b h in
          let equal : x ≡ y = (e.eqb_iff x y).0 same in
          rw same (omega arith, rw equal here, align_loop-IsPairing (suc i) (suc j) a b later)
      | inr other ↦
          let (here, later, inside) = at_drop b0 j y b h in
          elim (Bool-cases
            (leb (cell (dp_table a0 b0) (suc i) j) (cell (dp_table a0 b0) i (suc j)))) [
              | inl skip ↦
                  rw (other, skip)
                    (lower b0 j (suc j) (x ∷ a) _ (omega arith)
                      (align_loop-IsPairing i (suc j) (x ∷ a) b later))
              | inr stay ↦ rw (other, stay) (align_loop-IsPairing (suc i) j a (y ∷ b) h)
            ]
    ]

    matched-align_loop :
        (i j : ℕ) (a b : List A)
        → drop i a0 ≡ a
        → drop j b0 ≡ b
        → matched (align_loop (dp_table a0 b0) i j a b) ≡ lcs a b
    unfolding align_loop matched lcs
    matched-align_loop i j [] b da db = refl
    matched-align_loop i j (x ∷ a) [] da db =
        let (here, later, inside) = at_drop a0 i x a da in
        matched-align_loop (suc i) j a [] later db ∙ lcs-nil a
    matched-align_loop i j (x ∷ a) (y ∷ b) da db =
        let (here, down, low) = at_drop a0 i x a da in
        let (there, right, wide) = at_drop b0 j y b db in
        let under : cell (dp_table a0 b0) (suc i) j ≡ lcs a (y ∷ b) =
          cell-dp_table a0 b0 (suc i) j (omega (arith, low)) (omega (arith, wide))
          ∙ rw (down, db) refl in
        let beside : cell (dp_table a0 b0) i (suc j) ≡ lcs (x ∷ a) b =
          cell-dp_table a0 b0 i (suc j) (omega (arith, low)) (omega (arith, wide))
          ∙ rw (da, right) refl in
        let both = matched-align_loop (suc i) (suc j) a b down right in
        let skipped = matched-align_loop i (suc j) (x ∷ a) b da right in
        let unmatched = matched-align_loop (suc i) j a (y ∷ b) down db in
        elim (Bool-cases (x == y)) [
          | inl same ↦ rw same (ap (λ n. n + 1) both)
          | inr other ↦ ground (arith, other, under, beside, skipped, unmatched)
        ]

  -- The partners are equal words in order, and no pairing of the two texts has more of them.
  pub align_lcs_best :
      (a b : List A)
      → IsPairing b 0 a (align_lcs a b)
        × ((out : List (Option ℕ)) → IsPairing b 0 a out → matched out ≤ matched (align_lcs a b))
  unfolding align_lcs
  align_lcs_best a b =
      let most = matched-align_loop a b 0 0 a b refl refl in
      (
        align_loop-IsPairing a b 0 0 a b refl,
        λ out p. omega (arith, most, matched-le-lcs b 0 a out p),
      )
