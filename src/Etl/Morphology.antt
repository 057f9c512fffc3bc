-- ===== src/Etl/Morphology.antt =====
-- loadMorphology of server/cmd/etl/load.go with lemmaOf and verbForm, and irabRow of irab.go.
pub mod Places
use wird.Prelude.{
  ℕ, zero, suc, ◌+◌, Bool, true, false, not, ◌&&◌, ◌||◌, Option, none, some, List, [], ◌∷◌, ◌++◌,
  keep, length, leb, nat_beq, ◌==◌, nat_eq, list_eq, pair_eq, if◌then◌else◌,
}
use wird.Prelude.Attempt.{Attempt, done, fail, ◌>>=◌}
use wird.Prelude.Map.{Map, get, put}
use wird.Text.{Word, is_empty, trim_space}
use wird.Text.Ascii.{ascii}
use wird.Text.Strings.{starts_with, after_prefix, split_on, join, trim_of, trim_right_of}
use wird.Senses.Stem.{has_suffix}
use wird.Text.Decimal.{ℤ, pos, parse_int}
use wird.Etl.Ints.{int_eq, thousands, plus}
use wird.Etl.Corpus.{MorphSegment, IrabRow}
use wird.Etl.Buckwalter.{arabic_root, lemma_arabic}

abbrev pub or_lemma : Option Word → Word → Word
or_lemma none rest = rest
or_lemma (some l) rest = l

unfoldable pub lemma_of : List Word → Word
lemma_of [] = []
lemma_of (ft ∷ features) = or_lemma (after_prefix ft (ascii "LEM:")) (lemma_of features)

abbrev pub is_paren : ℕ → Bool
is_paren c = nat_beq c 0x28 || nat_beq c 0x29

-- The loop on the features, with whether a verb has been met.
unfoldable pub form_loop : Bool → List Word → Word
form_loop verb [] = if verb then ascii "I" else []
form_loop verb (ft ∷ features) =
    let rest = form_loop (verb || ft == ascii "POS:V") features in
    if starts_with ft (ascii "(") && has_suffix ft (ascii ")") then trim_of is_paren ft else rest

abbrev pub verb_form : List Word → Word
verb_form features = form_loop false features

-- An aya's id, which in a file may be of any numbers, and a word's place.
abbrev pub Key : Type 0
Key = ℤ × ℤ

-- The variables of the loop on the lines.
pub record Read : Type 0 where
  pub segs : Map Key (List MorphSegment)
  pub roots : Map Key Word
  pub lemmas : Map Key Word
  pub forms : Map Key Word

-- What a line that is read gives: where it belongs, the number that it gives its segment, and the
-- segment.
pub record Line : Type 0 where
  pub key : Key
  pub number : Word
  pub segment : MorphSegment

pub data MorphologyError : Type 0 where
  misnumbered : Word → ℕ → MorphologyError
  undecoded : Key → Word → MorphologyError

abbrev pub line_at : Option ℤ → Option ℤ → Option ℤ → Word → MorphSegment → Option Line
line_at (some su) (some ay) (some wd) number seg =
    some (record { key = (plus (thousands su) ay, wd); number = number; segment = seg })
line_at none ay wd number seg = none
line_at (some su) none wd number seg = none
line_at (some su) (some ay) none number seg = none

abbrev pub located : List Word → MorphSegment → Option Line
located (su ∷ ay ∷ wd ∷ sg ∷ []) seg = line_at (parse_int su) (parse_int ay) (parse_int wd) sg seg
located loc seg = none

-- The columns of a line. One that has fewer than four, or no location, is passed over.
abbrev pub columns : List Word → Option Line
columns (loc ∷ form ∷ tag ∷ features ∷ rest) =
    located (split_on 0x3A (trim_of is_paren loc))
      (record { form = form; tag = tag; features = split_on 0x7C features })
columns cols = none

abbrev pub is_comment : Word → Bool
is_comment line = is_empty line || starts_with line (ascii "#")

abbrev pub is_return : ℕ → Bool
is_return c = nat_beq c 0x0D

unfoldable pub read_line : Word → Option Line
read_line text =
    let line = trim_right_of is_return text in
    if is_comment line then none else columns (split_on 0x09 line)

abbrev pub segs_at : Option (List MorphSegment) → List MorphSegment
segs_at none = []
segs_at (some segs) = segs

abbrev pub text_at : Option Word → Word
text_at none = []
text_at (some w) = w

-- What is noted of a word by a feature that names a root, if none is noted yet.
abbrev pub note_root : Key → List Word → Option Word → Read → Read
note_root key features none m = m
note_root key features (some r) m =
    if is_empty (text_at (get m.roots key))
    then record m {
      roots = put m.roots key (arabic_root r);
      lemmas = put m.lemmas key (lemma_of features);
    }
    else m

unfoldable pub features_loop : Key → List Word → List Word → Read → Read
features_loop key features [] m = m
features_loop key features (ft ∷ rest) m =
    features_loop key features rest (note_root key features (after_prefix ft (ascii "ROOT:")) m)

abbrev pub note_form : Key → List Word → Read → Read
note_form key features m =
    if is_empty (text_at (get m.forms key))
    then record m { forms = put m.forms key (verb_form features) }
    else m

abbrev pub add_segment : Line → Read → Read
add_segment l m = record m {
  segs = put m.segs l.key (segs_at (get m.segs l.key) ++ l.segment ∷ []);
}

-- The segment's own number against its place.
abbrev pub is_numbered : Option ℤ → ℕ → Bool
is_numbered none n = false
is_numbered (some sg) n = sg == pos n

abbrev pub place_in : Line → Read → ℕ
place_in l m = length (segs_at (get m.segs l.key)) + 1

-- The body of the loop, on a line that is read.
unfoldable pub take_line : Line → Read → Attempt MorphologyError Read
unfolding features_loop
take_line l m =
    if is_numbered (parse_int l.number) (place_in l m)
    then done (
        note_form l.key l.segment.features
          (features_loop l.key l.segment.features l.segment.features (add_segment l m)))
    else fail (misnumbered l.number (place_in l m))

abbrev pub take_read : Option Line → Read → Attempt MorphologyError Read
take_read none m = done m
take_read (some l) m = take_line l m

unfoldable pub lines_loop : List Word → Read → Attempt MorphologyError Read
unfolding take_line read_line
lines_loop [] m = done m
lines_loop (text ∷ lines) m = take_read (read_line text) m >>= λ next. lines_loop lines next

-- The lines of the header, up to the first that is not a comment.
unfoldable pub header_of : List Word → List Word
header_of [] = []
header_of (text ∷ lines) =
    let line = trim_right_of is_return text in
    let rest = header_of lines in if is_comment line then line ∷ rest else []

pub record WordMorph : Type 0 where
  pub root : Word
  pub lemma_key : Word
  pub lemma : Word
  pub form : Word
  pub json : Word
  pub segments : List MorphSegment

pub record Morphology : Type 0 where
  pub notice : Word
  pub words : Map Key WordMorph
  pub counts : Map ℤ ℕ

abbrev pub count_at : Option ℕ → ℕ
count_at none = 0
count_at (some n) = n

abbrev pub lemma_shown : Key → Word → Word → Attempt MorphologyError Word
lemma_shown key root lemma_key = if is_empty root then done [] else decoded (lemma_arabic lemma_key)
  where
    decoded : Option Word → Attempt MorphologyError Word
    decoded none = fail (undecoded key lemma_key)
    decoded (some w) = done w

-- The JSON encoder
module _ (encode : List MorphSegment → Word) where
  abbrev pub word_morph : Read → Key → List MorphSegment → Word → WordMorph
  word_morph m key segs lemma = record {
    root = text_at (get m.roots key);
    lemma_key = text_at (get m.lemmas key);
    lemma = lemma;
    form = text_at (get m.forms key);
    json = encode segs;
    segments = segs;
  }

  -- The loop on `segs`, in the order of the file; the result does not depend on it, but for which
  -- error is the first.
  unfoldable pub fold_loop :
      Read → Map Key (List MorphSegment) → Morphology → Attempt MorphologyError Morphology
  fold_loop m [] out = done out
  fold_loop m ((key, segs) ∷ rest) out =
      lemma_shown key (text_at (get m.roots key)) (text_at (get m.lemmas key)) >>= λ lemma.
      fold_loop m rest (record out {
        words = put out.words key (word_morph m key segs lemma);
        counts = put out.counts key.0 (count_at (get out.counts key.0) + 1);
      })

  unfoldable pub load_morphology : List Word → Attempt MorphologyError Morphology
  unfolding lines_loop header_of fold_loop
  load_morphology lines =
      lines_loop lines (record { segs = []; roots = []; lemmas = []; forms = [] }) >>= λ m.
      fold_loop m m.segs (record {
        notice = trim_space (join (0x0A ∷ []) (header_of lines));
        words = [];
        counts = [];
      })

-- A feature that is the word's own, or repeats the tag.
abbrev pub is_own : Word → Bool
is_own ft =
    starts_with ft (ascii "LEM:")
    || (starts_with ft (ascii "ROOT:") || starts_with ft (ascii "POS:"))

abbrev pub pos_code : Word → Word
pos_code tag = ascii "POS:" ++ tag

abbrev pub irab_row : ℕ → ℕ → MorphSegment → IrabRow
irab_row id position seg = record {
  word = id;
  position = position;
  code = pos_code seg.tag;
  features = join (0x20 ∷ []) (keep (λ ft. not (is_own ft)) seg.features);
}
