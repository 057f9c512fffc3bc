-- ===== src/Text/Unicode.antt =====
-- The Unicode tables that the root package reads through Go's `unicode` package. They are not part
-- of the repository, so they are a parameter.
use wird.Prelude.{ℕ, Bool, true, false, ◌||◌, ◌≡◌, [], ◌∷◌, between, nat_eq, contains}

pub record Unicode : Type 0 where
  -- unicode.Is(unicode.Cf, r): invisible formatting characters
  pub is_format : ℕ → Bool
  -- unicode.Is(unicode.Mn, r): nonspacing combining marks
  pub is_mark : ℕ → Bool
  -- unicode.IsLetter(r)
  pub is_letter : ℕ → Bool
  -- unicode.Is(unicode.Arabic, r): the script
  pub is_arabic : ℕ → Bool

-- The bare alef, ha, waw and ya, and the ASCII digits.
abbrev pub is_plain : ℕ → Bool
is_plain r = contains (0x0627 ∷ 0x0647 ∷ 0x0648 ∷ 0x064A ∷ []) r || between 0x30 0x39 r

-- What the Unicode database says of those characters: the letters are of category Lo and the
-- digits of category Nd, so none of them is a mark or a format character.
pub record IsUnicode (u : Unicode) : Type 0 where
  pub plain_format : (r : ℕ) → is_plain r ≡ true → u.is_format r ≡ false
  pub plain_mark : (r : ℕ) → is_plain r ≡ true → u.is_mark r ≡ false
