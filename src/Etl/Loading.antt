-- ===== src/Etl/Loading.antt =====
-- Load of server/cmd/etl/load.go: the rows of the corpus from the chapters, the verses and the
-- morphology.
pub mod Paths
pub mod Tidy
pub mod Passing
use wird.Prelude.{
  ℕ, zero, suc, ◌+◌, ◌<◌, Bool, true, false, not, ◌&&◌, ◌||◌, Option, none, some, List, [], ◌∷◌,
  ◌++◌, map, length, ltb, leb, take, drop, nat_beq, ◌==◌, nat_eq, list_eq, pair_eq, if◌then◌else◌,
}
use wird.Prelude.Attempt.{Attempt, done, fail, ◌>>=◌}
use wird.Prelude.Map.{Map, get, put}
use wird.Prelude.Sort.{sort}
use wird.Text.{Word, is_empty, trim_space, word_leb}
use wird.Text.Ascii.{ascii}
use wird.Text.Decimal.{ℤ, pos, negsuc, parse_int, format_int}
use wird.Etl.Ints.{int_eq}
use wird.Etl.Spans.{run}
use wird.Etl.Rows.{Surah, Recited, Recitation, ayah_id, word_id}
use wird.Etl.Recite.{AyahTimings, Outcome, recitations_loop, RecitationError}
use wird.Etl.Corpus.{Ayah, CorpusWord, RootRow, Audio, IrabRow, Corpus, MorphSegment}
use wird.Etl.Buckwalter.{spaced, translit_root}
use wird.Etl.Glosses.{PageReader, Pages, pin_french_glosses}
use wird.Etl.Morphology.{Key, WordMorph, Morphology, irab_row, text_at}
use wird.Etl.Verses.{
  RawWord, RawVerse, LoadError, unread, other_segmentation, surah_of, wbw_path, rel_path,
  translation_of,
}

abbrev pub no_morph : WordMorph
no_morph = record { root = []; lemma_key = []; lemma = []; form = []; json = []; segments = [] }

abbrev pub morph_at : Option WordMorph → WordMorph
morph_at none = no_morph
morph_at (some m) = m

abbrev pub number_at : Option ℕ → ℕ
number_at none = 0
number_at (some n) = n

abbrev pub count_root : Word → Map Word ℕ → Map Word ℕ
count_root root counts =
    if is_empty root then counts else put counts root (number_at (get counts root) + 1)

unfoldable pub irab_rows : ℕ → ℕ → List MorphSegment → List IrabRow
irab_rows wid place [] = []
irab_rows wid place (seg ∷ segs) = irab_row wid place seg ∷ irab_rows wid (suc place) segs

-- What the loops add to: the rows, and the variables rootCount and wordsPerAyah.
pub record Loaded : Type 0 where
  pub ayahs : List Ayah
  pub words : List CorpusWord
  pub irab : List IrabRow
  pub audio : List Audio
  pub root_count : Map Word ℕ
  pub words_per_ayah : Map ℕ ℕ

abbrev pub word_row : ℕ → ℕ → ℕ → RawWord → WordMorph → CorpusWord
word_row su ay position w m = record {
  id = word_id (ayah_id su ay) position;
  ayah = ayah_id su ay;
  position = position;
  text_ar = w.text;
  translit = text_at w.transliteration;
  gloss_en = w.translation;
  root_letters = m.root;
  form = m.form;
  morphology = m.json;
  gloss_fr = [];
  wbw_path = wbw_path su ay position;
  lemma_key = m.lemma_key;
  lemma = m.lemma;
}

abbrev pub add_word : ℕ → ℕ → ℕ → RawWord → WordMorph → Loaded → Loaded
add_word su ay position w m l = record l {
  words = l.words ++ word_row su ay position w m ∷ [];
  irab = l.irab ++ irab_rows (word_id (ayah_id su ay) position) 1 m.segments;
  root_count = count_root m.root l.root_count;
}

abbrev pub ayah_row : (Word → Word) → RawVerse → ℕ × ℕ → Ayah
ayah_row without_notes v k = record {
  id = ayah_id k.0 k.1;
  surah = k.0;
  number = k.1;
  text_uthmani = v.text;
  text_fr = translation_of without_notes 779 [] v.translations;
  text_en = translation_of without_notes 19 [] v.translations;
}

abbrev pub with_ayah : Ayah → Loaded → Loaded
with_ayah row l = record l { ayahs = l.ayahs ++ row ∷ [] }

abbrev pub with_count : ℕ → ℕ → Loaded → Loaded
with_count aid n l = record l { words_per_ayah = put l.words_per_ayah aid n }

-- The words of the text against those of the morphology, if it has any.
abbrev pub check_count : Word → ℕ → ℕ → Loaded → Attempt LoadError Loaded
check_count key n position l =
    if not (nat_beq n 0) && not (nat_beq n position)
    then fail (other_segmentation key position n)
    else done l

abbrev pub audio_rows : Surah → List Audio
audio_rows ch =
    map (λ ayah. record { ayah = ayah_id ch.id ayah; rel_path = rel_path ch.id ayah })
      (run 1 ch.ayah_count)

abbrev pub opened_verses : Surah → Option (List RawVerse) → Attempt LoadError (List RawVerse)
opened_verses ch none = fail (unread ch.id)
opened_verses ch (some verses) = done verses

module _ (morph : Morphology) where
  -- The loop on the words of a verse, with how many have been met; a glyph is passed over.
  unfoldable pub words_loop : ℕ → ℕ → ℕ → List RawWord → Loaded → ℕ × Loaded
  words_loop su ay position [] l = (position, l)
  words_loop su ay position (w ∷ words) l =
      let m = morph_at (get morph.words (pos (ayah_id su ay), pos (suc position))) in
      let skipped = words_loop su ay position words l in
      let added = words_loop su ay (suc position) words (add_word su ay (suc position) w m l) in
      if w.char_type == ascii "word" then added else skipped

  -- The body of the loop on the verses, from the ids of the verse on.
  abbrev pub load_rows : Word → RawVerse → Ayah → Loaded → Attempt LoadError Loaded
  load_rows key v row l =
      let met = words_loop row.surah row.number 0 v.words (with_ayah row l) in
      check_count key (number_at (get morph.counts (pos row.id))) met.0
        (with_count row.id met.0 met.1)

  unfoldable pub load_verse : (Word → Word) → RawVerse → Loaded → Attempt LoadError Loaded
  unfolding words_loop
  load_verse without_notes v l =
      surah_of v.verse_key >>= λ k. load_rows v.verse_key v (ayah_row without_notes v k) l

  unfoldable pub verses_loop : (Word → Word) → List RawVerse → Loaded → Attempt LoadError Loaded
  unfolding load_verse
  verses_loop without_notes [] l = done l
  verses_loop without_notes (v ∷ verses) l =
      load_verse without_notes v l >>= λ next. verses_loop without_notes verses next

  -- The loop on the chapters, whose verses are in a file of their own.
  unfoldable pub chapters_loop :
      (Word → Word) → (ℕ → Option (List RawVerse)) → List Surah → Loaded → Attempt LoadError Loaded
  unfolding verses_loop
  chapters_loop without_notes file [] l = done l
  chapters_loop without_notes file (ch ∷ chapters) l = opened_verses ch (file ch.id) >>= λ verses.
      verses_loop without_notes verses l >>= λ next.
      chapters_loop without_notes file chapters
        (record next { audio = next.audio ++ audio_rows ch })

abbrev pub root_row : Word × ℕ → RootRow
root_row (letters, n) = record {
  letters = letters;
  display = spaced letters;
  latin = translit_root letters;
  occurrences = n;
}

abbrev pub letters_leb : RootRow → RootRow → Bool
letters_leb a b = word_leb a.letters b.letters

abbrev pub no_rows : Loaded
no_rows = record {
  ayahs = [];
  words = [];
  irab = [];
  audio = [];
  root_count = [];
  words_per_ayah = [];
}

-- The corpus before the French glosses are pinned. The notices of the timings, which stand below the
-- notice of the morphology, are given.
abbrev pub corpus_of : Word → List Surah → Loaded → Outcome → Corpus
corpus_of notice surahs l o = record {
  notice = notice;
  surahs = surahs;
  ayahs = l.ayahs;
  words = l.words;
  roots = sort letters_leb (map root_row l.root_count);
  audio = l.audio;
  recited = o.recited;
  refused = o.refused;
  irab = l.irab;
  sense_file = none;
  french_glosses_missed = 0;
  orphans = 0;
}

-- The corpus with the French of the pages, where there are any.
unfoldable pub pinned : PageReader → Option Pages → Corpus → Corpus
pinned r none c = c
pinned r (some pages) c =
    let out = pin_french_glosses r c.words pages in
    record c { words = out.0; french_glosses_missed = out.1 }

unfoldable pub load :
    (Word → Word)
    → PageReader
    → Option Pages
    → Morphology
    → List Surah
    → (ℕ → Option (List RawVerse))
    → List Recitation
    → (Word → Option (List AyahTimings))
    → (Word → Outcome → Word)
    → Attempt LoadError Corpus
unfolding chapters_loop pinned
load without_notes reader pages morph surahs verses recitations timings with_notices =
    chapters_loop morph without_notes verses surahs no_rows >>= λ l.
    let o = recitations_loop timings recitations surahs l.words_per_ayah in
    done (pinned reader pages (corpus_of (with_notices morph.notice o) surahs l o))
