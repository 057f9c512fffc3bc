-- ===== src/Etl/Loading/Passing.antt =====
-- What the gate asks of the paths and the roots holds of every corpus that is loaded.
use wird.Prelude.{
  ◌≡◌, refl, sym, subst, ◌∙◌, ℕ, ◌⊎◌, inl, inr, true, false, Option, none, some, List, [], ◌∷◌, map,
  contains, length, nat_eq, list_eq, list_beq_iff, pair_eq, All, All-imp, arith,
}
use wird.Prelude.Attempt.{done, >>=-eq-done}
use wird.Prelude.Map.{Map, get}
use wird.Text.{Word}
use wird.Etl.Rows.{Surah, Recitation}
use wird.Etl.Ints.{int_eq}
use wird.Etl.Corpus.{CorpusWord, RootRow, Audio, Corpus}
use wird.Prelude.Sort.{sort, contains-map-sort}
use wird.Etl.Gate.{not_relative, first_error, audio_error, root_error, wbw_error}
use wird.Etl.Gate.Facts.{first_error-nil}
use wird.Etl.Glosses.{PageReader, Pages, cards_at, letters, pin_french_glosses}
use wird.Etl.Glosses.Pinned.{IsPinned, ArePinned, ayahs_loop-ArePinned}
use wird.Etl.Recite.{AyahTimings, Outcome, recitations_loop}
use wird.Etl.Loading.{
  Loaded, chapters_loop, root_row, letters_leb, no_rows, corpus_of, pinned, load,
}
use wird.Etl.Verses.{RawVerse}
use wird.Etl.Morphology.{Morphology}
use wird.Etl.Loading.Tidy.{IsCounted, chapters_loop-IsTidy}

get-keys :
    (m : Map Word ℕ) (k : Word) (n : ℕ)
    → get m k ≡ some n
    → contains (map (λ (r : RootRow). r.letters) (map root_row m)) k ≡ true
unfolding get
get-keys [] k n h = cc
get-keys ((j, v) ∷ m) k n h = ground (arith, get-keys m k n, list_beq_iff j k, list_beq_iff k j)

-- A word that is counted passes.
counted_passes :
    (counts : Map Word ℕ) (w : CorpusWord)
    → IsCounted counts w
    → (root_error (map (λ (r : RootRow). r.letters) (sort letters_leb (map root_row counts))) w
        ≡ none)
      × (wbw_error w ≡ none)
counted_passes counts w (path, named) = (known named, rw path refl)
  where
    known :
        (w.root_letters ≡ []) ⊎ ((n : ℕ) × (get counts w.root_letters ≡ some n))
        → root_error (map (λ (r : RootRow). r.letters) (sort letters_leb (map root_row counts))) w
          ≡ none
    known (inl e) = rw e refl
    known (inr (n, e)) =
        let there =
          contains-map-sort letters_leb (λ (r : RootRow). r.letters) (map root_row counts)
            w.root_letters
          ∙ get-keys counts w.root_letters n e in
        ground (arith, there)

pinned-IsCounted :
    (f : Word → Word) (pages : Pages) (counts : Map Word ℕ) (words words' : List CorpusWord)
    → ArePinned f pages words words'
    → All (IsCounted counts) words
    → All (IsCounted counts) words'
pinned-IsCounted f pages counts [] [] p h = tt
pinned-IsCounted f pages counts [] (w' ∷ words') p h = absurd cc
pinned-IsCounted f pages counts (w ∷ words) [] p h = absurd cc
pinned-IsCounted f pages counts (w ∷ words) (w' ∷ words') p h =
    (here p.0, pinned-IsCounted f pages counts words words' p.1 h.1)
  where
    here : IsPinned f (cards_at (get pages w.ayah)) w w' → IsCounted counts w'
    here (inl same) = subst (IsCounted counts) (sym same) h.0
    here (inr (j, card, a, b, c, same)) = subst (IsCounted counts) (sym same) h.0

all_pass :
    (counts : Map Word ℕ) (words : List CorpusWord)
    → All (IsCounted counts) words
    → (first_error
          (root_error (map (λ (r : RootRow). r.letters) (sort letters_leb (map root_row counts))))
          words
        ≡ [])
      × (first_error wbw_error words ≡ [])
all_pass counts words h =
    let passing = All-imp (IsCounted counts) _ (counted_passes counts) words h in
    (
      (first_error-nil _ words).1 (All-imp _ _ (λ w p. p.0) words passing),
      (first_error-nil _ words).1 (All-imp _ _ (λ w p. p.1) words passing),
    )

audio_pass :
    (rows : List Audio)
    → All (λ (a : Audio). not_relative a.rel_path ≡ false) rows
    → first_error audio_error rows ≡ []
audio_pass rows h =
    (first_error-nil audio_error rows).1
      (All-imp _ (λ a. audio_error a ≡ none) (λ a e. rw e refl) rows h)

-- The loops of the gate on the paths and the roots find nothing.
abbrev pub IsPassing : Corpus → Type 0
IsPassing c =
    (first_error audio_error c.audio ≡ [])
    × (first_error (root_error (map (λ (r : RootRow). r.letters) c.roots)) c.words ≡ [])
    × (first_error wbw_error c.words ≡ [])

pinned_passes :
    (reader : PageReader) (pages : Option Pages) (notice : Word) (surahs : List Surah) (l : Loaded)
    (o : Outcome)
    → All (IsCounted l.root_count) l.words
    → All (λ (a : Audio). not_relative a.rel_path ≡ false) l.audio
    → IsPassing (pinned reader pages (corpus_of notice surahs l o))
unfolding pinned pin_french_glosses
pinned_passes reader none notice surahs l o words audio =
    let (roots, paths) = all_pass l.root_count l.words words in
    (audio_pass l.audio audio, roots, paths)
pinned_passes reader (some pages) notice surahs l o words audio =
    let kept =
      pinned-IsCounted (letters reader) pages l.root_count l.words _
        (ayahs_loop-ArePinned reader (length l.words) l.words pages) words in
    let (roots, paths) = all_pass l.root_count _ kept in (audio_pass l.audio audio, roots, paths)

-- Of the corpus that is loaded, with the French of the pages or without, the gate lets every path and
-- every root through.
pub load_passes :
    (f : Word → Word) (reader : PageReader) (pages : Option Pages) (morph : Morphology)
    (surahs : List Surah) (verses : ℕ → Option (List RawVerse)) (recitations : List Recitation)
    (timings : Word → Option (List AyahTimings)) (with_notices : Word → Outcome → Word) {c : Corpus}
    → load f reader pages morph surahs verses recitations timings with_notices ≡ done c
    → IsPassing c
unfolding load
load_passes f reader pages morph surahs verses recitations timings with_notices {c} h =
    let (l, looped, made) = >>=-eq-done (chapters_loop morph f verses surahs no_rows) _ h in
    let (words, audio) = chapters_loop-IsTidy morph f verses surahs no_rows (tt, tt) looped in
    let o = recitations_loop timings recitations surahs l.words_per_ayah in
    let same : pinned reader pages (corpus_of (with_notices morph.notice o) surahs l o) ≡ c = cc in
    subst IsPassing same
      (pinned_passes reader pages (with_notices morph.notice o) surahs l o words audio)
