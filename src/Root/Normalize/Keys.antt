-- ===== src/Root/Normalize/Keys.antt =====
-- What two spellings of one word have in common: the keys that they are stored under.
use wird.Prelude.{
  ℕ, Bool, ◌≡◌, refl, ap, not, keep, nat_eq, list_eq, true, false, [], ◌∷◌, ◌++◌, arith, All,
}
use wird.Text.{Word, is_space, trim_space}
use wird.Text.Trim.{trim_space-snoc}
use wird.Text.Unicode.{Unicode, IsUnicode}
use wird.Root.Normalize.{is_pause_mark, trim_marks, spell_out, normalize, key, index_keys}
use wird.Root.Normalize.Fixed.{key_idem}

keep-append : (p : ℕ → Bool) (v w : Word) → keep p (v ++ w) ≡ keep p v ++ keep p w
keep-append p [] w = refl
keep-append p (r ∷ v) w = ground (arith, keep-append p v w)

-- A pause mark and the space before it do not change a word.
pub trim_marks-glued :
    (w : Word) (s m : ℕ)
    → is_space s ≡ true
    → is_pause_mark s ≡ false
    → is_pause_mark m ≡ true
    → trim_marks (w ++ s ∷ m ∷ []) ≡ trim_marks w
unfolding trim_marks
trim_marks-glued w s m space plain mark =
    rw (keep-append (λ r. not (is_pause_mark r)) w (s ∷ m ∷ []), plain, mark)
      (trim_space-snoc (keep (λ r. not (is_pause_mark r)) w) s space)

space_not_mark : (s : ℕ) → is_space s ≡ true → is_pause_mark s ≡ false
unfolding is_space is_pause_mark
space_not_mark s h = ground arith

module _ (u : Unicode) where
  -- A pause mark after a word, with the space that it sits behind, does not change the key.
  pub key-glued :
      (w : Word) (s m : ℕ)
      → is_space s ≡ true
      → is_pause_mark m ≡ true
      → key u (w ++ s ∷ m ∷ []) ≡ key u w
  unfolding key
  key-glued w s m space mark =
      ap (λ v. trim_space (normalize u v))
        (trim_marks-glued w s m space (space_not_mark s space) mark)

  -- Where the tables agree on plain text, every key that a form is stored under is its own key.
  pub index_keys_keyed : IsUnicode u → (form : Word) → All (λ k. key u k ≡ k) (index_keys u form)
  unfolding index_keys
  index_keys_keyed laws form =
      ground (arith, key_idem u laws form, key_idem u laws (spell_out form))
