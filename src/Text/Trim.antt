-- ===== src/Text/Trim.antt =====
-- What trimming leaves: a text that trimming leaves alone, made of the same code points.
use mathlib.Core.Bool.{and-false}
use wird.Prelude.{
  ℕ, ◌≤◌, ◌↔◌, true, ◌&&◌, ◌++◌, ◌≡◌, refl, ap, ◌∙◌, [], ◌∷◌, inl, inr, arith, All, length,
  Bool-cases,
}
use wird.Text.{Word, is_empty, is_space, trim_left, trim_right, trim_space}

pub is_empty-nil : (w : Word) → (is_empty w ≡ true) ↔ (w ≡ [])
is_empty-nil [] = (λ h. refl, λ h. refl)
is_empty-nil (c ∷ w) = (λ h. cc, λ h. cc)

trim_left_idem : (w : Word) → trim_left (trim_left w) ≡ trim_left w
unfolding trim_left
trim_left_idem [] = refl
trim_left_idem (r ∷ w) = elim (Bool-cases (is_space r)) [
  | inl e ↦ rw e (trim_left_idem w)
  | inr e ↦ rw e (rw e)
]

trim_right_idem : (w : Word) → trim_right (trim_right w) ≡ trim_right w
unfolding trim_right
trim_right_idem [] = refl
trim_right_idem (r ∷ w) = ground (arith, trim_right_idem w)

length-trim_left-le : (w : Word) → length (trim_left w) ≤ length w
unfolding trim_left
length-trim_left-le [] = omega arith
length-trim_left-le (r ∷ w) = ground (arith, length-trim_left-le w)

-- Trimming the end leaves a trimmed front trimmed.
trim_left-trim_right : (w : Word) → trim_left w ≡ w → trim_left (trim_right w) ≡ trim_right w
unfolding trim_left trim_right
trim_left-trim_right [] h = refl
trim_left-trim_right (r ∷ w) h = elim (Bool-cases (is_space r)) [
  | inl e ↦ absurd (omega (arith, length-trim_left-le w, ap length (rw e at h)))
  | inr e ↦ rw (e, and-false) (rw e)
]

pub trim_space_idem : (w : Word) → trim_space (trim_space w) ≡ trim_space w
unfolding trim_space
trim_space_idem w =
    ap trim_right (trim_left-trim_right (trim_left w) (trim_left_idem w))
    ∙ trim_right_idem (trim_left w)

module _ (P : ℕ → Type 0) where
  All-trim_left : (w : Word) → All P w → All P (trim_left w)
  unfolding trim_left
  All-trim_left [] h = tt
  All-trim_left (r ∷ w) h = elim (Bool-cases (is_space r)) [
    | inl e ↦ rw e (All-trim_left w h.1)
    | inr e ↦ rw e h
  ]

  All-trim_right : (w : Word) → All P w → All P (trim_right w)
  unfolding trim_right
  All-trim_right [] h = tt
  All-trim_right (r ∷ w) h = elim (Bool-cases (is_empty (trim_right w) && is_space r)) [
    | inl e ↦ rw e tt
    | inr e ↦ rw e (h.0, All-trim_right w h.1)
  ]

  pub All-trim_space : (w : Word) → All P w → All P (trim_space w)
  unfolding trim_space
  All-trim_space w h = All-trim_right (trim_left w) (All-trim_left w h)

trim_right-snoc : (w : Word) (s : ℕ) → is_space s ≡ true → trim_right (w ++ s ∷ []) ≡ trim_right w
unfolding trim_right
trim_right-snoc [] s h = rw h
trim_right-snoc (r ∷ w) s h = rw (trim_right-snoc w s h)

-- A space at the end changes nothing.
pub trim_space-snoc :
    (w : Word) (s : ℕ) → is_space s ≡ true → trim_space (w ++ s ∷ []) ≡ trim_space w
unfolding trim_space trim_left
trim_space-snoc [] s h = rw h
trim_space-snoc (r ∷ w) s h = elim (Bool-cases (is_space r)) [
  | inl e ↦ rw e (trim_space-snoc w s h)
  | inr e ↦ rw e (trim_right-snoc (r ∷ w) s h)
]
