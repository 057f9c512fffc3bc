-- ===== src/Root/Normalize/Fixed.antt =====
-- A normalised text is one whose every code point the normaliser leaves alone, so that normalising,
-- and keying, again changes nothing.
use wird.Prelude.{
  ℕ, ◌≡◌, refl, ap, ◌∙◌, ◌⊎◌, inl, inr, not, keep, true, false, [], ◌∷◌, arith, All, Bool-cases,
}
use wird.Text.{Word, trim_space}
use wird.Text.Trim.{trim_space_idem, All-trim_space}
use wird.Text.Unicode.{Unicode, IsUnicode, is_plain}
use wird.Root.Normalize.{folded, is_pause_mark, trim_marks, dropped, normalize, key}

folded-cases : (r : ℕ) → (folded r ≡ r) ⊎ (is_plain (folded r) ≡ true)
unfolding folded
folded-cases r = ground arith

folded-plain : (r : ℕ) → is_plain r ≡ true → folded r ≡ r
unfolding folded
folded-plain r h = ground arith

folded_idem : (r : ℕ) → folded (folded r) ≡ folded r
folded_idem r = elim (folded-cases r) [
  | inl same ↦ ap folded same
  | inr plain ↦ folded-plain (folded r) plain
]

-- What is not a pause mark does not become one by folding.
pause-folded : (r : ℕ) → is_pause_mark r ≡ false → is_pause_mark (folded r) ≡ false
unfolding folded is_pause_mark
pause-folded r h = ground arith

abbrev IsUnmarked : ℕ → Type 0
IsUnmarked r = is_pause_mark r ≡ false

keep-IsUnmarked : (w : Word) → All IsUnmarked (keep (λ r. not (is_pause_mark r)) w)
keep-IsUnmarked [] = tt
keep-IsUnmarked (r ∷ w) = elim (Bool-cases (is_pause_mark r)) [
  | inl e ↦ rw e (keep-IsUnmarked w)
  | inr e ↦ rw e (e, keep-IsUnmarked w)
]

keep_unmarked : (w : Word) → All IsUnmarked w → keep (λ r. not (is_pause_mark r)) w ≡ w
keep_unmarked [] h = refl
keep_unmarked (r ∷ w) h = rw h.0 (ap (λ v. r ∷ v) (keep_unmarked w h.1))

pub trim_marks-IsUnmarked : (w : Word) → All IsUnmarked (trim_marks w)
unfolding trim_marks
trim_marks-IsUnmarked w = All-trim_space IsUnmarked _ (keep-IsUnmarked w)

-- Taking the recitation marks off twice is taking them off once.
pub trim_marks_idem : (w : Word) → trim_marks (trim_marks w) ≡ trim_marks w
unfolding trim_marks
trim_marks_idem w =
    ap trim_space (keep_unmarked (trim_marks w) (trim_marks-IsUnmarked w))
    ∙ trim_space_idem (keep (λ r. not (is_pause_mark r)) w)

module _ (u : Unicode) (laws : IsUnicode u) where
  dropped-plain : (r : ℕ) → is_plain r ≡ true → dropped u r ≡ false
  unfolding dropped
  dropped-plain r h = ground (arith, laws.plain_format r h, laws.plain_mark r h)

  dropped-folded : (r : ℕ) → dropped u r ≡ false → dropped u (folded r) ≡ false
  dropped-folded r h = elim (folded-cases r) [
    | inl same ↦ ap (dropped u) same ∙ h
    | inr plain ↦ dropped-plain (folded r) plain
  ]

  -- A code point that the normaliser leaves alone.
  abbrev IsFixed : ℕ → Type 0
  IsFixed r = (dropped u r ≡ false) × (folded r ≡ r)

  normalize-IsFixed : (w : Word) → All IsFixed (normalize u w)
  unfolding normalize
  normalize-IsFixed [] = tt
  normalize-IsFixed (r ∷ w) = elim (Bool-cases (dropped u r)) [
    | inl e ↦ rw e (normalize-IsFixed w)
    | inr e ↦ rw e ((dropped-folded r e, folded_idem r), normalize-IsFixed w)
  ]

  normalize_fixed : (w : Word) → All IsFixed w → normalize u w ≡ w
  unfolding normalize
  normalize_fixed [] h = refl
  normalize_fixed (r ∷ w) h = ground (arith, h.0.0, h.0.1, normalize_fixed w h.1)

  -- Where the tables agree on plain text, normalising twice is normalising once.
  pub normalize_idem : (w : Word) → normalize u (normalize u w) ≡ normalize u w
  normalize_idem w = normalize_fixed (normalize u w) (normalize-IsFixed w)

  normalize-IsUnmarked : (w : Word) → All IsUnmarked w → All IsUnmarked (normalize u w)
  unfolding normalize
  normalize-IsUnmarked [] h = tt
  normalize-IsUnmarked (r ∷ w) h = elim (Bool-cases (dropped u r)) [
    | inl e ↦ rw e (normalize-IsUnmarked w h.1)
    | inr e ↦ rw e (pause-folded r h.0, normalize-IsUnmarked w h.1)
  ]

  key-IsUnmarked : (w : Word) → All IsUnmarked (key u w)
  unfolding key
  key-IsUnmarked w =
      All-trim_space IsUnmarked _ (normalize-IsUnmarked (trim_marks w) (trim_marks-IsUnmarked w))

  key-IsFixed : (w : Word) → All IsFixed (key u w)
  unfolding key
  key-IsFixed w = All-trim_space IsFixed _ (normalize-IsFixed (trim_marks w))

  trim_marks-key : (w : Word) → trim_marks (key u w) ≡ key u w
  unfolding trim_marks key
  trim_marks-key w =
      ap trim_space (keep_unmarked (key u w) (key-IsUnmarked w))
      ∙ trim_space_idem (normalize u (trim_marks w))

  normalize-key : (w : Word) → normalize u (key u w) ≡ key u w
  normalize-key w = normalize_fixed (key u w) (key-IsFixed w)

  trim_space-key : (w : Word) → trim_space (key u w) ≡ key u w
  unfolding key
  trim_space-key w = trim_space_idem (normalize u (trim_marks w))

  -- Where the tables agree on plain text, the key of a key is itself.
  pub key_idem : (w : Word) → key u (key u w) ≡ key u w
  unfolding key
  key_idem w =
      ap (λ v. trim_space (normalize u v)) (trim_marks-key w)
      ∙ ap trim_space (normalize-key w)
      ∙ trim_space-key w
