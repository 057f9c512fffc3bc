-- ===== src/Etl/Gate.antt =====
-- Check of server/cmd/etl/check.go, which a corpus has to pass: the notice, the counts, the paths, the
-- roots, the recitations, the translations, the French glosses and the lemmas.
pub mod Facts
pub mod Recitations
pub mod Parsing
pub mod Sound
pub mod Texts
use wird.Prelude.{
  ℕ, zero, suc, ◌+◌, ◌/◌, Bool, true, false, not, ◌&&◌, ◌||◌, Option, none, some, List, [], ◌∷◌,
  ◌++◌, map, any, keep, contains, length, nat_beq, ltb, nat_eq, list_eq, ◌==◌, if◌then◌else◌,
}
use wird.Prelude.Map.{Map, get, put}
use wird.Text.{Word, is_empty}
use wird.Text.Ascii.{ascii}
use wird.Text.Strings.{holds, starts_with}
use wird.Text.Decimal.{ℤ, pos}
use wird.Etl.Ints.{int_ltb}
use wird.Etl.Rows.{Segment, Recited}
use wird.Etl.Corpus.{Corpus, CorpusWord, Ayah, Audio, RootRow}

pub data GateError : Type 0 where
  notice_misses : Word → GateError
  surah_total ayah_total audio_total orphan_segments : ℕ → GateError
  audio_not_relative unknown_root word_audio_not_relative : ℕ → GateError
  nothing_recited no_default : GateError
  unknown_word goes_back : Word → ℕ → GateError
  some_french some_english : ℕ → GateError
  bare_ayahs : List Ayah → GateError
  no_lemma : ℕ → GateError
  wrong_lemma_count : Word → ℕ → GateError

-- A loop that stops at its first error.
unfoldable pub first_error {ℓ} : {A : Type ℓ} → (A → Option GateError) → List A → List GateError
first_error f [] = []
first_error f (x ∷ xs) = let rest = first_error f xs in elim (f x) [ none ↦ rest | some e ↦ e ∷ [] ]

abbrev pub when : Bool → GateError → List GateError
when bad e = if bad then e ∷ [] else []

abbrev pub markers : List Word
markers =
    ascii "Quranic Arabic Corpus"
    ∷ ascii "Kais Dukes"
    ∷ ascii "corpus.quran.com"
    ∷ ascii "quran-align"
    ∷ ascii "Collin Fair"
    ∷ ascii "creativecommons.org/licenses/by/4.0/"
    ∷ []

abbrev pub misses : Word → Word → Option GateError
misses notice marker = if holds notice marker then none else some (notice_misses marker)

abbrev pub not_relative : Word → Bool
not_relative path = holds path (ascii "://") || starts_with path (ascii "/")

abbrev pub audio_error : Audio → Option GateError
audio_error a = if not_relative a.rel_path then some (audio_not_relative a.ayah) else none

abbrev pub root_error : List Word → CorpusWord → Option GateError
root_error known w =
    if not (is_empty w.root_letters) && not (contains known w.root_letters)
    then some (unknown_root w.id)
    else none

abbrev pub wbw_error : CorpusWord → Option GateError
wbw_error w = if not_relative w.wbw_path then some (word_audio_not_relative w.id) else none

abbrev pub start_at : Option ℤ → ℤ
start_at none = pos 0
start_at (some n) = n

-- The loop on the segments of a recitation, with the last start of each aya.
unfoldable pub segments_loop : List ℕ → Word → Map ℕ ℤ → List Segment → List GateError
segments_loop words slug last_start [] = []
segments_loop words slug last_start (s ∷ segments) =
    let aid = s.word / 1000 in
    let rest = segments_loop words slug (put last_start aid s.starts) segments in
    if not (contains words s.word)
    then unknown_word slug s.word ∷ []
    else if int_ltb s.starts (start_at (get last_start aid))
    then goes_back slug aid ∷ []
    else rest

unfoldable pub recited_loop : List ℕ → List Recited → List GateError
unfolding segments_loop
recited_loop words [] = []
recited_loop words (r ∷ recited) =
    segments_loop words r.recitation.slug [] r.segments ++ recited_loop words recited

abbrev pub default_slug : Word
default_slug = ascii "husary-muallim"

abbrev pub is_default : Recited → Bool
is_default r = r.recitation.slug == default_slug

abbrev pub is_nil {ℓ} : {A : Type ℓ} → List A → Bool
is_nil [] = true
is_nil (x ∷ xs) = false

-- Some are there, and not all.
abbrev pub is_partial : ℕ → ℕ → Bool
is_partial n all = not (nat_beq n 0) && not (nat_beq n all)

abbrev pub count_errors : Corpus → List GateError
count_errors c =
    when (not (nat_beq (length c.surahs) 114)) (surah_total (length c.surahs))
    ++ when (not (nat_beq (length c.ayahs) 6236)) (ayah_total (length c.ayahs))
    ++ when (not (nat_beq (length c.audio) (length c.ayahs))) (audio_total (length c.audio))

abbrev pub with_french : Corpus → ℕ
with_french c = length (keep (λ (a : Ayah). not (is_empty a.text_fr)) c.ayahs)

abbrev pub with_english : Corpus → ℕ
with_english c = length (keep (λ (a : Ayah). not (is_empty a.text_en)) c.ayahs)

abbrev pub translation_errors : Corpus → List GateError
translation_errors c =
    when (is_partial (with_french c) (length c.ayahs)) (some_french (with_french c))
    ++ when (is_partial (with_english c) (length c.ayahs)) (some_english (with_english c))

-- The ayas that have a French word.
abbrev pub french_ayahs : Corpus → List ℕ
french_ayahs c =
    map (λ (w : CorpusWord). w.ayah) (keep (λ (w : CorpusWord). not (is_empty w.gloss_fr)) c.words)

abbrev pub bare_of : Corpus → List Ayah
bare_of c = keep (λ (a : Ayah). not (contains (french_ayahs c) a.id)) c.ayahs

unfoldable pub check_french_glosses : Corpus → List GateError
check_french_glosses c =
    when (not (is_nil (french_ayahs c)) && not (is_nil (bare_of c))) (bare_ayahs (bare_of c))

-- The root ra, ha, mim
abbrev pub mercy_root : Word
mercy_root = 0x0631 ∷ 0x062D ∷ 0x0645 ∷ []

abbrev pub has_no_lemma : CorpusWord → Bool
has_no_lemma w = not (is_empty w.root_letters) && is_empty w.lemma

-- The words that the loop on the lemmas passes before it stops.
unfoldable pub before_stop : List CorpusWord → List CorpusWord
before_stop [] = []
before_stop (w ∷ words) = let rest = before_stop words in if has_no_lemma w then [] else w ∷ rest

abbrev pub lemma_error : CorpusWord → Option GateError
lemma_error w = if has_no_lemma w then some (no_lemma w.id) else none

abbrev pub mercy : Corpus → Word → ℕ
mercy c key = length (
    keep (λ (w : CorpusWord). w.root_letters == mercy_root && w.lemma_key == key)
      (before_stop c.words))

abbrev pub mercy_error : Corpus → Word → ℕ → List GateError
mercy_error c key want =
    when (not (nat_beq (mercy c key) want)) (wrong_lemma_count key (mercy c key))

unfoldable pub check_lemmas : Corpus → Bool → List GateError
unfolding first_error before_stop
check_lemmas c full =
    first_error lemma_error c.words
    ++ (if full
        then mercy_error c (ascii "r~aHiym") 116
          ++ mercy_error c (ascii "raHomap") 114
          ++ mercy_error c (ascii "r~aHoma`n") 57
        else [])

-- Check up to the parsing, and what follows it up to the senses.
unfoldable pub check_rows : Corpus → Bool → List GateError
unfolding first_error recited_loop
check_rows c full =
    first_error (misses c.notice) markers
    ++ (if full then count_errors c else [])
    ++ when (ltb 0 c.orphans) (orphan_segments c.orphans)
    ++ first_error audio_error c.audio
    ++ first_error (root_error (map (λ (r : RootRow). r.letters) c.roots)) c.words
    ++ when (is_nil c.recited) nothing_recited
    ++ recited_loop (map (λ (w : CorpusWord). w.id) c.words) c.recited
    ++ when (not (is_nil c.recited) && not (any is_default c.recited)) no_default
    ++ first_error wbw_error c.words

unfoldable pub check_texts : Corpus → Bool → List GateError
unfolding check_french_glosses check_lemmas
check_texts c full =
    (if full then translation_errors c else []) ++ check_french_glosses c ++ check_lemmas c full
