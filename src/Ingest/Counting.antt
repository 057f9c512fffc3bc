-- ===== src/Ingest/Counting.antt =====
-- Counting the numbers of a range that a list leaves out.
use wird.Prelude.{
  ◌≡◌, refl, ℕ, zero, suc, ◌+◌, ◌≤◌, ◌<◌, true, false, List, [], ◌∷◌, contains, length, nat_beq,
  nat_eq, All, IsNodup, Bool-cases, inl, inr, arith,
}
use wird.Ingest.Verify.{missing_from}

missing_from-none : (k n : ℕ) → missing_from k n [] ≡ n
unfolding missing_from
missing_from-none k zero = refl
missing_from-none k (suc n) = omega (arith, missing_from-none (suc k) n)

-- A number below the range makes no difference, and one that is there already makes none.
missing_from_below :
    (k n p : ℕ) (ps : List ℕ) → p < k → missing_from k n (p ∷ ps) ≡ missing_from k n ps
unfolding missing_from
missing_from_below k zero p ps h = refl
missing_from_below k (suc n) p ps h =
    ground (arith, missing_from_below (suc k) n p ps (omega arith))

pub missing_from_old :
    (k n p : ℕ) (ps : List ℕ)
    → contains ps p ≡ true
    → missing_from k n (p ∷ ps) ≡ missing_from k n ps
unfolding missing_from
missing_from_old k zero p ps h = refl
missing_from_old k (suc n) p ps h = elim (Bool-cases (nat_beq k p)) [
  | inl e ↦
      let same : k ≡ p = ground (arith, e) in
      ground (arith, e, same, h, missing_from_old (suc k) n p ps h)
  | inr e ↦ ground (arith, e, missing_from_old (suc k) n p ps h)
]

-- A new number of the range is one less that is left out.
pub missing_from_new :
    (k n p : ℕ) (ps : List ℕ)
    → k ≤ p
    → p < k + n
    → contains ps p ≡ false
    → missing_from k n ps ≡ missing_from k n (p ∷ ps) + 1
unfolding missing_from
missing_from_new k zero p ps h l fresh = absurd (omega arith)
missing_from_new k (suc n) p ps h l fresh = elim (Bool-cases (nat_beq k p)) [
  | inl e ↦
      let same : k ≡ p = ground (arith, e) in
      let free : contains ps k ≡ false = rw same fresh in
      ground (arith, e, free, missing_from_below (suc k) n p ps (omega arith))
  | inr e ↦
      ground (arith, e, missing_from_new (suc k) n p ps (ground (arith, e)) (omega arith) fresh)
]

-- Different numbers of a range and those left out make up the range.
pub missing_from-length :
    (k n : ℕ) (ps : List ℕ)
    → All (λ p. (k ≤ p) × (p < k + n)) ps
    → IsNodup ps
    → length ps + missing_from k n ps ≡ n
missing_from-length k n [] inside apart = omega (arith, missing_from-none k n)
missing_from-length k n (p ∷ ps) inside apart = omega (
  arith,
  missing_from_new k n p ps inside.0.0 inside.0.1 apart.0,
  missing_from-length k n ps inside.1 apart.1,
)

-- If none is left out, all are there.
pub missing_from-all :
    (k n i : ℕ) (ps : List ℕ) → missing_from k n ps ≡ 0 → k ≤ i → i < k + n → contains ps i ≡ true
unfolding missing_from
missing_from-all k zero i ps h a b = absurd (omega arith)
missing_from-all k (suc n) i ps h a b = elim (Bool-cases (nat_beq k i)) [
  | inl e ↦ let same : k ≡ i = ground (arith, e) in ground (arith, h, same)
  | inr e ↦ missing_from-all (suc k) n i ps (ground (arith, h)) (ground (arith, e)) (omega arith)
]
