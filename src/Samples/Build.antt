-- ===== src/Samples/Build.antt =====
-- A corpus of one word, from the file of the morphology to the gate.
use wird.Prelude.{
  ◌≡◌, refl, ℕ, true, false, List, [], ◌∷◌, ◌++◌, ◌+◌, ◌≤◌, Option, some, none, nat_eq, list_eq,
  pair_eq, ◌↔◌, length, map, All, contains,
}
use wird.Prelude.Attempt.{done}
use wird.Prelude.Map.{get, put}
use wird.Prelude.Sort.{sort, insert}
use wird.Text.{Word, trim_space, trim_left, trim_right, is_space}
use wird.Text.Ascii.{ascii}
use wird.Text.Strings.{starts_with, after_prefix, split_by, join, trim_of, trim_right_of}
use wird.Text.Decimal.{pos, parse_int, value, format_int, digits}
use wird.Etl.Spans.{run}
use wird.Etl.Ints.{int_eq, int_beq, plus}
use wird.Etl.Rows.{Surah}
use wird.Etl.Recite.{AyahTimings, Outcome, recitations_loop}
use wird.Etl.Corpus.{Corpus, CorpusWord, IrabRole, MorphSegment}
use wird.Etl.Buckwalter.{arabic_root, decode, spaced, translit_root}
use wird.Etl.Morphology.{
  Key, Read, Line, Morphology, lines_loop, take_line, read_line, features_loop, lemma_of, form_loop,
  segs_at,
}
use wird.Etl.Morphology.Places.{lines_of, IsNumbered, lines_loop_places}
use wird.Etl.Align.{align_lcs}
use wird.Etl.Align.Best.{IsPairing, matched, align_lcs_best}
use wird.Etl.Glosses.{Pages, PageReader, letters, pin_french_glosses}
use wird.Etl.Glosses.Pinned.{ArePinned, bare_count, pin_french_glosses_pins}
use wird.Etl.Loading.{load, chapters_loop, verses_loop, load_verse, words_loop, irab_rows, pinned}
use wird.Etl.Verses.{RawVerse, cut_colon, wbw_path, rel_path}
use wird.Etl.Loading.Passing.{IsPassing, load_passes}
use wird.Etl.Gate.{check_rows, check_texts}
use wird.Etl.Gate.Sound.{IsSound, check_rows_exact}
use wird.Etl.Gate.Texts.{IsComplete, check_texts_exact}
use wird.Etl.Gate.Parsing.{check_irab, is_half, codes_of}
use wird.Etl.Gate.Parsing.Exact.{IsParsed, check_irab_exact}
use wird.Ingest.Order.{Chapter, check_revelation_order}
use wird.Ingest.Order.Ranks.{IsRanked, IsCovered, check_revelation_order_exact}

abbrev ours : List ℕ
ours = 1 ∷ 2 ∷ 3 ∷ []

abbrev theirs : List ℕ
theirs = 2 ∷ 3 ∷ 1 ∷ []

align_lcs_best_example :
    IsPairing theirs 0 ours (align_lcs ours theirs)
    × ((out : List (Option ℕ))
        → IsPairing theirs 0 ours out
        → matched out ≤ matched (align_lcs ours theirs))
align_lcs_best_example = align_lcs_best ours theirs

-- Two chapters with the same rank.
abbrev chapters : List Chapter
chapters =
    record { id = 1; verses_count = 7; revelation_order = 5 }
    ∷ record { id = 2; verses_count = 286; revelation_order = 5 }
    ∷ []

check_revelation_order_exact_example :
    (check_revelation_order chapters ≡ none) ↔ (IsRanked chapters × IsCovered chapters)
check_revelation_order_exact_example = check_revelation_order_exact chapters

-- The lines of a word of two segments.
abbrev lines : List Word
lines =
    ascii "# notice"
    ∷ (ascii "(1:1:1:1)" ++ 0x09 ∷ ascii "bi" ++ 0x09 ∷ ascii "P" ++ 0x09 ∷ ascii "PREFIX")
    ∷ (ascii "(1:1:1:2)"
        ++ 0x09 ∷ ascii "somi"
        ++ 0x09 ∷ ascii "N"
        ++ 0x09 ∷ ascii "STEM|LEM:{som|ROOT:smw")
    ∷ []

abbrev key : Key
key = (pos 1001, pos 1)

abbrev prefix : MorphSegment
prefix = record { form = ascii "bi"; tag = ascii "P"; features = ascii "PREFIX" ∷ [] }

abbrev stem_segment : MorphSegment
stem_segment = record {
  form = ascii "somi";
  tag = ascii "N";
  features = ascii "STEM" ∷ ascii "LEM:{som" ∷ ascii "ROOT:smw" ∷ [];
}

abbrev nothing_read : Read
nothing_read = record { segs = []; roots = []; lemmas = []; forms = [] }

-- sin, mim, waw
abbrev smw : Word
smw = 0x0633 ∷ 0x0645 ∷ 0x0648 ∷ []

abbrev after_lines : Read
after_lines = record {
  segs = (key, prefix ∷ stem_segment ∷ []) ∷ [];
  roots = (key, smw) ∷ [];
  lemmas = (key, ascii "{som") ∷ [];
  forms = (key, []) ∷ [];
}

lines_loop-lines : lines_loop lines nothing_read ≡ done after_lines
unfolding lines_loop take_line read_line features_loop lemma_of form_loop starts_with after_prefix
    split_by trim_of trim_right_of parse_int value int_beq plus get put arabic_root decode
lines_loop-lines = refl

lines_loop_places_example :
    (segs_at (get after_lines.segs key) ≡ [] ++ map (λ (l : Line). l.segment) (lines_of key lines))
    × IsNumbered (length (segs_at (get nothing_read.segs key)) + 1) (lines_of key lines)
unfolding get
lines_loop_places_example = lines_loop_places lines nothing_read key lines_loop-lines

-- Pages that are read as they are.
abbrev plain_reader : PageReader
plain_reader = record {
  text_of = λ w. w;
  to_lower = λ w. w;
  decomposed = λ w. w;
  is_letter = λ c. true;
}

abbrev pages : Pages
pages = (1001, record { arabic = smw; french = ascii " nom " } ∷ []) ∷ []

abbrev word : CorpusWord
word = record {
  id = 1001001;
  ayah = 1001;
  position = 1;
  text_ar = smw;
  translit = [];
  gloss_en = ascii "in the name";
  root_letters = smw;
  form = [];
  morphology = ascii "json";
  gloss_fr = [];
  wbw_path = ascii "wbw/001_001_001.mp3";
  lemma_key = ascii "{som";
  lemma = ascii "ism";
}

pin_french_glosses_pins_example :
    ArePinned
      (letters plain_reader)
      pages
      (word ∷ [])
      (pin_french_glosses plain_reader (word ∷ []) pages).0
    × ((pin_french_glosses plain_reader (word ∷ []) pages).1
        ≡ bare_count (pin_french_glosses plain_reader (word ∷ []) pages).0)
pin_french_glosses_pins_example = pin_french_glosses_pins plain_reader (word ∷ []) pages (refl, tt)

abbrev chapter_row : Surah
chapter_row = record {
  id = 1;
  name_ar = [];
  name_en = ascii "Al-Fatihah";
  ayah_count = 1;
  revelation_order = 5;
  revelation_place = ascii "makkah";
}

abbrev morphology : Morphology
morphology = record {
  notice = ascii "Kais Dukes";
  words =
      (
        key,
        record {
          root = smw;
          lemma_key = ascii "{som";
          lemma = ascii "ism";
          form = [];
          json = ascii "json";
          segments = prefix ∷ stem_segment ∷ [];
        },
      )
      ∷ [];
  counts = (pos 1001, 1) ∷ [];
}

abbrev verses : ℕ → Option (List RawVerse)
verses n = some (
    record {
      verse_key = ascii "1:1";
      text = smw;
      translations = (779, ascii "Au nom") ∷ [];
      words =
          record {
            char_type = ascii "word";
            text = smw;
            translation = ascii "in the name";
            transliteration = none;
          }
          ∷ record { char_type = ascii "end"; text = []; translation = []; transliteration = none }
          ∷ [];
    }
    ∷ [])

abbrev no_timings : Word → Option (List AyahTimings)
no_timings name = none

abbrev same_notice : Word → Outcome → Word
same_notice notice o = notice

abbrev corpus : Corpus
corpus = record {
  notice = ascii "Kais Dukes";
  surahs = chapter_row ∷ [];
  ayahs =
      record {
        id = 1001;
        surah = 1;
        number = 1;
        text_uthmani = smw;
        text_fr = ascii "Au nom";
        text_en = [];
      }
      ∷ [];
  words = record word { gloss_fr = ascii "nom" } ∷ [];
  roots =
      record {
        letters = smw;
        display = 0x0633 ∷ 0x20 ∷ 0x0645 ∷ 0x20 ∷ 0x0648 ∷ [];
        latin = ascii "s-m-w";
        occurrences = 1;
      }
      ∷ [];
  audio = record { ayah = 1001; rel_path = ascii "001001.mp3" } ∷ [];
  recited = [];
  refused = [];
  irab =
      record { word = 1001001; position = 1; code = ascii "POS:P"; features = ascii "PREFIX" }
      ∷ record { word = 1001001; position = 2; code = ascii "POS:N"; features = ascii "STEM" }
      ∷ [];
  sense_file = none;
  french_glosses_missed = 0;
  orphans = 0;
}

load-corpus :
    load
      (λ w. w)
      plain_reader
      (some pages)
      morphology
      (chapter_row ∷ [])
      verses
      []
      no_timings
      same_notice
    ≡ done corpus
unfolding load chapters_loop verses_loop load_verse words_loop cut_colon wbw_path rel_path irab_rows
    pinned recitations_loop parse_int value int_beq get put run sort insert spaced translit_root
    pin_french_glosses trim_space trim_left trim_right is_space format_int digits join starts_with
    align_lcs
load-corpus = refl

load_passes_example : IsPassing corpus
load_passes_example =
    load_passes (λ w. w) plain_reader (some pages) morphology (chapter_row ∷ []) verses []
      no_timings same_notice load-corpus

check_rows_exact_example : (check_rows corpus false ≡ []) ↔ IsSound corpus false
check_rows_exact_example = check_rows_exact corpus false

check_texts_exact_example : (check_texts corpus true ≡ []) ↔ IsComplete corpus true
check_texts_exact_example = check_texts_exact corpus true

abbrev decode_json : Word → Option (List MorphSegment)
decode_json w = some (prefix ∷ stem_segment ∷ [])

abbrev roles : List IrabRole
roles = record { code = ascii "POS:P"; en = ascii "Preposition"; fr = [] } ∷ []

check_irab_exact_example : (check_irab decode_json roles corpus.irab corpus.words ≡ []) ↔ (
    All (λ r. is_half r ≡ false) roles
    × All
        (λ s. All (λ c. contains (map (λ (r : IrabRole). r.code) roles) c ≡ true) (codes_of s))
        corpus.irab
    × All (IsParsed decode_json corpus.irab) corpus.words)
check_irab_exact_example = check_irab_exact decode_json roles corpus.irab corpus.words
