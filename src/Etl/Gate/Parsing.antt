-- ===== src/Etl/Gate/Parsing.antt =====
-- checkIrab of server/cmd/etl/check.go: the parsing of each word, segment by segment.
pub mod Exact
use wird.Prelude.{
  ℕ, zero, suc, ◌+◌, Bool, true, false, not, ◌&&◌, ◌||◌, Option, none, some, List, [], ◌∷◌, ◌++◌,
  map, any, keep, contains, length, nat_beq, nat_eq, list_eq, if◌then◌else◌,
}
use wird.Text.{Word, is_empty, trim_space}
use wird.Text.Strings.{fields}
use wird.Etl.Spans.{run}
use wird.Etl.Corpus.{CorpusWord, MorphSegment, IrabRow, IrabRole}

pub data ParsingError : Type 0 where
  half_named unnamed_code : Word → ParsingError
  not_parsed no_morphology : ℕ → ParsingError
  rows_short : ℕ → ℕ → ℕ → ParsingError
  no_place : ℕ → ℕ → ParsingError

abbrev pub is_half : IrabRole → Bool
is_half r = is_empty (trim_space r.en) || is_empty (trim_space r.fr)

unfoldable pub role_errors : List IrabRole → List ParsingError
role_errors [] = []
role_errors (r ∷ roles) =
    let rest = role_errors roles in if is_half r then half_named r.code ∷ rest else rest

abbrev pub codes_of : IrabRow → List Word
codes_of s = s.code ∷ fields s.features

abbrev pub or_first : {A : Type 0} → Option A → Option A → Option A
or_first none later = later
or_first (some a) later = some a

abbrev pub first_unnamed : List Word → List Word → Option Word
first_unnamed named [] = none
first_unnamed named (code ∷ codes) =
    let rest = first_unnamed named codes in if contains named code then rest else some code

-- The loop named `unnamed`, which the first unnamed code ends.
unfoldable pub unnamed_loop : List Word → List IrabRow → Option Word
unnamed_loop named [] = none
unnamed_loop named (s ∷ rows) =
    or_first (first_unnamed named (codes_of s)) (unnamed_loop named rows)

abbrev pub unnamed_errors : Option Word → List ParsingError
unnamed_errors none = []
unnamed_errors (some code) = unnamed_code code ∷ []

abbrev pub rows_at : List IrabRow → ℕ → List IrabRow
rows_at rows word = keep (λ (s : IrabRow). nat_beq s.word word) rows

abbrev pub places : List IrabRow → List ℕ
places rows = map (λ (s : IrabRow). s.position) rows

-- The loop on the segments of a word, from place `k` on, `n` of them.
unfoldable pub first_missing : List ℕ → ℕ → ℕ → Option ℕ
first_missing place k zero = none
first_missing place k (suc n) =
    let rest = first_missing place (suc k) n in if contains place k then rest else some k

-- What the body of the loop on the words comes to: nothing, an error that ends the loop, or one after
-- which it goes on.
pub data Checked : Type 0 where
  passes : Checked
  ends goes_on : ParsingError → Checked

abbrev pub place_of : ℕ → Option ℕ → Checked
place_of word none = passes
place_of word (some k) = goes_on (no_place word k)

abbrev pub count_segments : List IrabRow → ℕ → List MorphSegment → Checked
count_segments rows word [] = ends (no_morphology word)
count_segments rows word (seg ∷ segs) =
    if nat_beq (length rows) (length (seg ∷ segs))
    then place_of word (first_missing (places rows) 1 (length (seg ∷ segs)))
    else ends (rows_short word (length (seg ∷ segs)) (length rows))

abbrev pub count_decoded : List IrabRow → ℕ → Option (List MorphSegment) → Checked
count_decoded rows word none = ends (not_parsed word)
count_decoded rows word (some segs) = count_segments rows word segs

abbrev pub onto : Checked → List ParsingError → List ParsingError
onto passes rest = rest
onto (ends e) rest = e ∷ []
onto (goes_on e) rest = e ∷ rest

abbrev pub segments_of :
    (Word → Option (List MorphSegment)) → CorpusWord → Option (List MorphSegment)
segments_of decode w = if is_empty w.morphology then some [] else decode w.morphology

module _ (decode : Word → Option (List MorphSegment)) (rows : List IrabRow) where
  unfoldable pub check_word : CorpusWord → Checked
  unfolding first_missing
  check_word w = count_decoded (rows_at rows w.id) w.id (segments_of decode w)

  unfoldable pub words_loop : List CorpusWord → List ParsingError
  unfolding check_word
  words_loop [] = []
  words_loop (w ∷ words) = onto (check_word w) (words_loop words)

unfoldable pub check_irab :
    (Word → Option (List MorphSegment))
    → List IrabRole
    → List IrabRow
    → List CorpusWord
    → List ParsingError
unfolding role_errors unnamed_loop words_loop
check_irab decode roles rows words =
    role_errors roles
    ++ unnamed_errors (unnamed_loop (map (λ (r : IrabRole). r.code) roles) rows)
    ++ words_loop decode rows words
