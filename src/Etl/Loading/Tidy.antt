-- ===== src/Etl/Loading/Tidy.antt =====
-- What the loops of load of server/cmd/etl/load.go keep: relative paths, and counted roots.
use wird.Prelude.{
  ◌≡◌, refl, subst, ◌∙◌, ℕ, zero, suc, ◌+◌, ◌⊎◌, inl, inr, false, not, ◌&&◌, Option, some, List, [],
  ◌∷◌, ◌++◌, map, ◌==◌, eqb_refl, nat_beq, nat_eq, list_eq, pair_eq, All, All-append, All-imp,
  Bool-cases,
}
use wird.Prelude.Attempt.{done, fail, >>=-eq-done}
use wird.Prelude.Map.{Map, get, put, get-put}
use wird.Text.{Word, is_empty}
use wird.Text.Ascii.{ascii}
use wird.Text.Decimal.{pos}
use wird.Etl.Spans.{run}
use wird.Etl.Rows.{Surah, ayah_id}
use wird.Etl.Ints.{int_eq}
use wird.Etl.Corpus.{Ayah, CorpusWord, Audio}
use wird.Etl.Gate.{not_relative}
use wird.Etl.Loading.Paths.{wbw_path-relative, rel_path-relative}
use wird.Etl.Loading.{
  Loaded, count_root, number_at, morph_at, add_word, words_loop, check_count, load_rows, ayah_row,
  with_ayah, with_count, load_verse, verses_loop, opened_verses, audio_rows, chapters_loop,
}
use wird.Etl.Verses.{rel_path, RawWord, RawVerse, other_segmentation, surah_of}
use wird.Etl.Morphology.{WordMorph, Morphology}

-- What the loops keep: the paths are relative, and each root that a word names is counted.
abbrev pub IsCounted : Map Word ℕ → CorpusWord → Type 0
IsCounted counts w =
    (not_relative w.wbw_path ≡ false)
    × ((w.root_letters ≡ []) ⊎ ((n : ℕ) × (get counts w.root_letters ≡ some n)))

abbrev pub IsTidy : Loaded → Type 0
IsTidy l =
    All (IsCounted l.root_count) l.words
    × All (λ (a : Audio). not_relative a.rel_path ≡ false) l.audio

put_keeps :
    (root : Word) (counts : Map Word ℕ) (r : Word) (n : ℕ)
    → get counts r ≡ some n
    → (m : ℕ) × (get (put counts root (number_at (get counts root) + 1)) r ≡ some m)
put_keeps root counts r n h =
    let read = get-put counts root r (number_at (get counts root) + 1) in
    elim (Bool-cases (root == r)) [
      | inl e ↦ (number_at (get counts root) + 1, read ∙ rw e refl)
      | inr e ↦ (n, read ∙ rw e h)
    ]

count_root_keeps :
    (root : Word) (counts : Map Word ℕ) (r : Word)
    → ((n : ℕ) × (get counts r ≡ some n))
    → ((n : ℕ) × (get (count_root root counts) r ≡ some n))
count_root_keeps root counts r (n, h) = elim (Bool-cases (is_empty root)) [
  | inl e ↦ rw e (n, h)
  | inr e ↦ rw e (put_keeps root counts r n h)
]

count_root_has :
    (root : Word) (counts : Map Word ℕ)
    → (root ≡ []) ⊎ ((n : ℕ) × (get (count_root root counts) root ≡ some n))
count_root_has [] counts = inl refl
count_root_has (c ∷ root) counts = inr (
  number_at (get counts (c ∷ root)) + 1,
  get-put counts (c ∷ root) (c ∷ root) _ ∙ rw (eqb_refl (c ∷ root)) refl,
)

irrelevant_root :
    (root : Word) (counts : Map Word ℕ) (w : CorpusWord)
    → IsCounted counts w
    → IsCounted (count_root root counts) w
irrelevant_root root counts w (path, named) = (
  path,
  elim named [
    | inl none_named ↦ inl none_named
    | inr counted ↦ inr (count_root_keeps root counts w.root_letters counted)
  ],
)

add_word-IsTidy :
    (su ay position : ℕ) (w : RawWord) (m : WordMorph) (l : Loaded)
    → IsTidy l
    → IsTidy (add_word su ay position w m l)
add_word-IsTidy su ay position w m l (words, audio) = (
  All-append (IsCounted (count_root m.root l.root_count)) l.words _
      (All-imp (IsCounted l.root_count) (IsCounted (count_root m.root l.root_count))
        (irrelevant_root m.root l.root_count) l.words words)
      ((wbw_path-relative su ay position, count_root_has m.root l.root_count), tt),
  audio,
)

check_count_inv :
    (key : Word) (n position : ℕ) (l : Loaded) {l' : Loaded}
    → check_count key n position l ≡ done l'
    → l ≡ l'
check_count_inv key n position l {l'} h =
    elim (Bool-cases (not (nat_beq n 0) && not (nat_beq n position))) [
      | inl e ↦
          let bad : fail (other_segmentation key position n) ≡ done l' = (rw e at h) in absurd cc
      | inr e ↦ let good : done l ≡ done l' = (rw e at h) in cc
    ]

module _ (morph : Morphology) where
  words_loop-IsTidy :
      (su ay position : ℕ) (words : List RawWord) (l : Loaded)
      → IsTidy l
      → IsTidy (words_loop morph su ay position words l).1
  unfolding words_loop
  words_loop-IsTidy su ay position [] l h = h
  words_loop-IsTidy su ay position (w ∷ words) l h =
      let m = morph_at (get morph.words (pos (ayah_id su ay), pos (suc position))) in
      elim (Bool-cases (w.char_type == ascii "word")) [
        | inl e ↦ rw e (
            words_loop-IsTidy su ay (suc position) words (add_word su ay (suc position) w m l)
              (add_word-IsTidy su ay (suc position) w m l h))
        | inr e ↦ rw e (words_loop-IsTidy su ay position words l h)
      ]

  load_rows-IsTidy :
      (key : Word) (v : RawVerse) (row : Ayah) (l : Loaded) {l' : Loaded}
      → IsTidy l
      → load_rows morph key v row l ≡ done l'
      → IsTidy l'
  load_rows-IsTidy key v row l h k =
      let met = words_loop morph row.surah row.number 0 v.words (with_ayah row l) in
      subst IsTidy
        (check_count_inv key (number_at (get morph.counts (pos row.id))) met.0
          (with_count row.id met.0 met.1) k)
        (words_loop-IsTidy row.surah row.number 0 v.words (with_ayah row l) h)

  load_verse-IsTidy :
      (f : Word → Word) (v : RawVerse) (l : Loaded) {l' : Loaded}
      → IsTidy l
      → load_verse morph f v l ≡ done l'
      → IsTidy l'
  unfolding load_verse
  load_verse-IsTidy f v l h k =
      let (key, read, rest) = >>=-eq-done (surah_of v.verse_key) _ k in
      load_rows-IsTidy v.verse_key v (ayah_row f v key) l h rest

  verses_loop-IsTidy :
      (f : Word → Word) (verses : List RawVerse) (l : Loaded) {l' : Loaded}
      → IsTidy l
      → verses_loop morph f verses l ≡ done l'
      → IsTidy l'
  unfolding verses_loop
  verses_loop-IsTidy f [] l {l'} h k = let same : l ≡ l' = cc in subst IsTidy same h
  verses_loop-IsTidy f (v ∷ verses) l h k =
      let (next, first, rest) = >>=-eq-done (load_verse morph f v l) _ k in
      verses_loop-IsTidy f verses next (load_verse-IsTidy f v l h first) rest

  audio_relative :
      (su k n : ℕ)
      → All
          (λ (a : Audio). not_relative a.rel_path ≡ false)
          (map (λ ayah. record { ayah = ayah_id su ayah; rel_path = rel_path su ayah }) (run k n))
  unfolding run
  audio_relative su k zero = tt
  audio_relative su k (suc n) = (rel_path-relative su k, audio_relative su (suc k) n)

  pub chapters_loop-IsTidy :
      (f : Word → Word) (file : ℕ → Option (List RawVerse)) (chapters : List Surah) (l : Loaded)
      {l' : Loaded}
      → IsTidy l
      → chapters_loop morph f file chapters l ≡ done l'
      → IsTidy l'
  unfolding chapters_loop
  chapters_loop-IsTidy f file [] l {l'} h k = let same : l ≡ l' = cc in subst IsTidy same h
  chapters_loop-IsTidy f file (ch ∷ chapters) l h k =
      let (verses, opened, rest) = >>=-eq-done (opened_verses ch (file ch.id)) _ k in
      let (next, looped, last) = >>=-eq-done (verses_loop morph f verses l) _ rest in
      let (words, audio) = verses_loop-IsTidy f verses l h looped in
      chapters_loop-IsTidy f file chapters (record next { audio = next.audio ++ audio_rows ch })
        (
          words,
          All-append (λ (a : Audio). not_relative a.rel_path ≡ false) next.audio (audio_rows ch)
              audio (audio_relative ch.id 1 ch.ayah_count),
        )
        last
