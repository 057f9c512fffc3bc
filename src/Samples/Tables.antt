-- ===== src/Samples/Tables.antt =====
-- The part of the Unicode tables that Arabic and basic Latin need. The ranges of marks and of
-- formatting characters are those of jidhr/testdata/normalize.json.
use wird.Prelude.{ℕ, Bool, false, ◌||◌, List, [], ◌∷◌, arith, between}
use wird.Text.Unicode.{Unicode, IsUnicode}

abbrev in_ranges : List (ℕ × ℕ) → ℕ → Bool
in_ranges [] r = false
in_ranges ((lo, hi) ∷ ranges) r = between lo hi r || in_ranges ranges r

abbrev formats : List (ℕ × ℕ)
formats =
    (0xAD, 0xAD)
    ∷ (0x0600, 0x0605)
    ∷ (0x061C, 0x061C)
    ∷ (0x06DD, 0x06DD)
    ∷ (0x070F, 0x070F)
    ∷ (0x0890, 0x0891)
    ∷ (0x08E2, 0x08E2)
    ∷ (0x180E, 0x180E)
    ∷ (0x200B, 0x200F)
    ∷ (0x202A, 0x202E)
    ∷ (0x2060, 0x2064)
    ∷ (0x2066, 0x206F)
    ∷ (0xFEFF, 0xFEFF)
    ∷ []

abbrev marks : List (ℕ × ℕ)
marks =
    (0x0610, 0x061A)
    ∷ (0x064B, 0x065F)
    ∷ (0x0670, 0x0670)
    ∷ (0x06D6, 0x06DC)
    ∷ (0x06DF, 0x06E4)
    ∷ (0x06E7, 0x06E8)
    ∷ (0x06EA, 0x06ED)
    ∷ (0x0897, 0x089F)
    ∷ (0x08CA, 0x08E1)
    ∷ (0x08E3, 0x08FF)
    ∷ (0x10EFA, 0x10EFF)
    ∷ []

abbrev arabic_ranges : List (ℕ × ℕ)
arabic_ranges = (0x0620, 0x063F) ∷ (0x0641, 0x064A) ∷ (0x066E, 0x066F) ∷ (0x0671, 0x06D3) ∷ []

abbrev latin_letters : List (ℕ × ℕ)
latin_letters = (0x41, 0x5A) ∷ (0x61, 0x7A) ∷ []

abbrev pub tables : Unicode
tables = record {
  is_format = in_ranges formats;
  is_mark = in_ranges marks;
  is_letter = λ r. in_ranges arabic_ranges r || in_ranges latin_letters r;
  is_arabic = in_ranges arabic_ranges;
}

pub tables-IsUnicode : IsUnicode tables
tables-IsUnicode = record { plain_format = λ r h. ground arith; plain_mark = λ r h. ground arith }
