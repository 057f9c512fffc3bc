-- ===== src/Root/Normalize.antt =====
-- jidhr/pkg/root/normalize.go: the spelling that the corpus is keyed by. The error of `normalize`
-- is always nil there, so it is left out of the type, and with it the branch of `key` on it.
pub mod Fixed
pub mod Keys
use wird.Prelude.{
  ℕ, ◌+◌, ◌-◌, Bool, true, false, ◌&&◌, ◌||◌, List, [], ◌∷◌, map, keep, between, nat_beq, nat_eq,
  list_eq, contains, ◌==◌, not, if◌then◌else◌,
}
use wird.Text.{Word, is_empty, trim_space}
use wird.Text.Letters.{alef, dagger_alef}
use wird.Text.Unicode.{Unicode}

unfoldable pub in_arabic_block : ℕ → Bool
in_arabic_block r =
    between 0x0600 0x06FF r
    || between 0x0750 0x077F r
    || between 0x0870 0x089F r
    || between 0x08A0 0x08FF r
    || between 0x10EC0 0x10EFF r

unfoldable pub folded : ℕ → ℕ
folded r =
    if contains (0x0622 ∷ 0x0623 ∷ 0x0625 ∷ 0x0671 ∷ []) r
    then 0x0627
    else if nat_beq r 0x0624
    then 0x0648
    else if nat_beq r 0x0626
    then 0x064A
    else if nat_beq r 0x0629
    then 0x0647
    else if nat_beq r 0x0649
    then 0x064A
    else if between 0x0660 0x0669 r
    then 0x30 + (r - 0x0660)
    else if between 0x06F0 0x06F9 r
    then 0x30 + (r - 0x06F0)
    else r

-- The test inside TrimMarks.
unfoldable pub is_pause_mark : ℕ → Bool
is_pause_mark r = between 0x06D6 0x06DE r || between 0x06E9 0x06ED r

unfoldable pub trim_marks : Word → Word
unfolding is_pause_mark trim_space
trim_marks word = trim_space (keep (λ r. not (is_pause_mark r)) word)

-- strings.ReplaceAll of the dagger alef by the letter alef
unfoldable pub spell_out : Word → Word
spell_out = map (λ r. if nat_beq r dagger_alef then alef else r)

module _ (u : Unicode) where
  open u use {is_format, is_mark}

  unfoldable pub dropped : ℕ → Bool
  unfolding in_arabic_block
  dropped r =
      contains (0x0640 ∷ 0x06E5 ∷ 0x06E6 ∷ []) r || is_format r || is_mark r && in_arabic_block r

  unfoldable pub normalize : Word → Word
  unfolding dropped folded
  normalize [] = []
  normalize (r ∷ word) = let rest = normalize word in if dropped r then rest else folded r ∷ rest

  unfoldable pub key : Word → Word
  unfolding normalize trim_marks trim_space
  key word = trim_space (normalize (trim_marks word))

  unfoldable pub index_keys : Word → List Word
  index_keys form =
      let k = key form in
      let expanded = key (spell_out form) in
      if not (contains form dagger_alef)
      then k ∷ []
      else if expanded == k || is_empty expanded
      then k ∷ []
      else k ∷ expanded ∷ []
