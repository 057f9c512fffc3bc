-- ===== src/Etl/Verses.antt =====
-- The verses as they are downloaded, and the keys and paths of them, of server/cmd/etl/load.go.
use wird.Prelude.{
  ℕ, Option, none, some, List, [], ◌∷◌, ◌++◌, ltb, nat_beq, nat_eq, list_eq, pair_eq, if◌then◌else◌,
}
use wird.Prelude.Attempt.{Attempt, done, fail}
use wird.Text.{Word, trim_space}
use wird.Text.Ascii.{ascii}
use wird.Text.Decimal.{ℤ, pos, parse_int, format_int}
use wird.Etl.Ints.{int_eq}

pub record RawWord : Type 0 where
  pub char_type : Word
  pub text : Word
  pub translation : Word
  pub transliteration : Option Word

pub record RawVerse : Type 0 where
  pub verse_key : Word
  pub text : Word
  pub translations : List (ℕ × Word)
  pub words : List RawWord

pub data LoadError : Type 0 where
  unread : ℕ → LoadError
  bad_key : Word → LoadError
  other_segmentation : Word → ℕ → ℕ → LoadError

-- strings.Cut on a colon
unfoldable pub cut_colon : Word → Option (Word × Word)
cut_colon [] = none
cut_colon (c ∷ text) =
    let rest = cut_colon text in if nat_beq c 0x3A then some ([], text) else onto_cut c rest
  where
    onto_cut : ℕ → Option (Word × Word) → Option (Word × Word)
    onto_cut c none = none
    onto_cut c (some (a, b)) = some (c ∷ a, b)

-- The numbers of a key. They count suras and ayas, so the model takes natural numbers alone.
abbrev pub key_numbers : Word → Option ℤ → Option ℤ → Attempt LoadError (ℕ × ℕ)
key_numbers key (some (pos s)) (some (pos a)) = done (s, a)
key_numbers key (some (pos s)) a = fail (bad_key key)
key_numbers key s a = fail (bad_key key)

abbrev pub cut_numbers : Word → Option (Word × Word) → Attempt LoadError (ℕ × ℕ)
cut_numbers key none = fail (bad_key key)
cut_numbers key (some (s, a)) = key_numbers key (parse_int s) (parse_int a)

abbrev pub surah_of : Word → Attempt LoadError (ℕ × ℕ)
surah_of key = cut_numbers key (cut_colon key)

-- %03d
abbrev pub three_digits : ℕ → Word
three_digits n =
    let d = format_int n in if ltb n 10 then 0x30 ∷ 0x30 ∷ d else if ltb n 100 then 0x30 ∷ d else d

unfoldable pub wbw_path : ℕ → ℕ → ℕ → Word
wbw_path surah ayah position =
    ascii "wbw/"
    ++ three_digits surah
    ++ ascii "_"
    ++ three_digits ayah
    ++ ascii "_"
    ++ three_digits position
    ++ ascii ".mp3"

unfoldable pub rel_path : ℕ → ℕ → Word
rel_path surah ayah = three_digits surah ++ three_digits ayah ++ ascii ".mp3"

-- The last translation of a source, its notes dropped by the pattern `footnote`.
abbrev pub translation_of : (Word → Word) → ℕ → Word → List (ℕ × Word) → Word
translation_of without_notes source last [] = last
translation_of without_notes source last ((id, text) ∷ rest) =
    translation_of without_notes source
      (if nat_beq id source then trim_space (without_notes text) else last) rest
