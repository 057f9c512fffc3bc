-- ===== src/Etl/Gate/Texts.antt =====
-- What check of server/cmd/etl/check.go finds nothing in among the translations, the French glosses
-- and the lemmas. The lemmas that are counted come in the order of the source; Go ranges over a map.
use wird.Prelude.{
  ◌≡◌, refl, ap, ℕ, ◌↔◌, ◌⊎◌, Bool, true, false, not, ◌&&◌, none, List, [], ◌∷◌, map, keep, length,
  contains, ◌==◌, nat_eq, list_eq, All, append-nil_iff, All-iff, keep-nil, arith,
}
use wird.Text.{Word, is_empty}
use wird.Text.Ascii.{ascii}
use wird.Etl.Corpus.{Corpus, CorpusWord, Ayah}
use wird.Etl.Gate.{
  GateError, when, is_nil, check_texts, translation_errors, is_partial, with_french, with_english,
  some_french, some_english, check_french_glosses, french_ayahs, bare_of, check_lemmas, lemma_error,
  has_no_lemma, mercy, mercy_error, before_stop, mercy_root,
}
use wird.Text.Trim.{is_empty-nil}
use wird.Etl.Gate.Facts.{full_nil, first_nil}

-- The words of the root of mercy with this lemma.
abbrev pub count_of : List CorpusWord → Word → ℕ
count_of words key =
    length (keep (λ (w : CorpusWord). w.root_letters == mercy_root && w.lemma_key == key) words)

-- The facts about the texts: each translation is whole or absent on a full corpus, the French glosses
-- reach every aya or none, every rooted word has a lemma, and on a full corpus three of them are as
-- frequent as they are known to be.
abbrev pub IsComplete : Corpus → Bool → Type 0
IsComplete c full =
    (full ≡ true
      → ((with_french c ≡ 0) ⊎ (with_french c ≡ length c.ayahs))
        × ((with_english c ≡ 0) ⊎ (with_english c ≡ length c.ayahs)))
    × (All (λ (w : CorpusWord). is_empty w.gloss_fr ≡ true) c.words
        ⊎ All (λ (a : Ayah). contains (french_ayahs c) a.id ≡ true) c.ayahs)
    × All (λ (w : CorpusWord). (w.root_letters ≡ []) ⊎ (is_empty w.lemma ≡ false)) c.words
    × (full ≡ true
        → (count_of c.words (ascii "r~aHiym") ≡ 116)
          × (count_of c.words (ascii "raHomap") ≡ 114)
          × (count_of c.words (ascii "r~aHoma`n") ≡ 57))

partial_nil : (n all : ℕ) (e : GateError) → (when (is_partial n all) e ≡ []) ↔ ((n ≡ 0) ⊎ (n ≡ all))
partial_nil n all e = ground arith

is_nil_iff : {A : Type 0} (xs : List A) → (is_nil xs ≡ true) ↔ (xs ≡ [])
is_nil_iff [] = (λ h. refl, λ h. refl)
is_nil_iff (x ∷ xs) = (λ h. cc, λ h. cc)

not_empty : (w : Word) → (not (is_empty w) ≡ false) ↔ (is_empty w ≡ true)
not_empty w = ground arith

not-false : (b : Bool) → (not b ≡ false) ↔ (b ≡ true)
not-false b = ground arith

mapped_nil : {A B : Type 0} (f : A → B) (xs : List A) → (is_nil (map f xs) ≡ true) ↔ (xs ≡ [])
mapped_nil f [] = (λ h. refl, λ h. refl)
mapped_nil f (x ∷ xs) = (λ h. cc, λ h. cc)

french_none :
    (c : Corpus)
    → (is_nil (french_ayahs c) ≡ true)
      ↔ All (λ (w : CorpusWord). is_empty w.gloss_fr ≡ true) c.words
french_none c =
    let kept = keep-nil (λ (w : CorpusWord). not (is_empty w.gloss_fr)) c.words in
    let each =
      All-iff (λ (w : CorpusWord). not (is_empty w.gloss_fr) ≡ false) _ c.words
        (λ w. not_empty w.gloss_fr) in
    let nil =
      mapped_nil (λ (w : CorpusWord). w.ayah)
        (keep (λ (w : CorpusWord). not (is_empty w.gloss_fr)) c.words) in
    (λ h. each.0 (kept.0 (nil.0 h)), λ h. nil.1 (kept.1 (each.1 h)))

bare_none :
    (c : Corpus)
    → (is_nil (bare_of c) ≡ true)
      ↔ All (λ (a : Ayah). contains (french_ayahs c) a.id ≡ true) c.ayahs
bare_none c =
    let kept = keep-nil (λ (a : Ayah). not (contains (french_ayahs c) a.id)) c.ayahs in
    let each =
      All-iff (λ (a : Ayah). not (contains (french_ayahs c) a.id) ≡ false) _ c.ayahs
        (λ a. not-false (contains (french_ayahs c) a.id)) in
    let nil = is_nil_iff (bare_of c) in
    (λ h. each.0 (kept.0 (nil.0 h)), λ h. nil.1 (kept.1 (each.1 h)))

french_nil :
    (c : Corpus)
    → (check_french_glosses c ≡ []) ↔ (
        All (λ (w : CorpusWord). is_empty w.gloss_fr ≡ true) c.words
        ⊎ All (λ (a : Ayah). contains (french_ayahs c) a.id ≡ true) c.ayahs)
unfolding check_french_glosses
french_nil c = ground (arith, french_none c, bare_none c)

lemma_none :
    (w : CorpusWord) → (lemma_error w ≡ none) ↔ ((w.root_letters ≡ []) ⊎ (is_empty w.lemma ≡ false))
lemma_none w = ground (arith, is_empty-nil w.root_letters)

before_stop-all :
    (ws : List CorpusWord)
    → All (λ (w : CorpusWord). (w.root_letters ≡ []) ⊎ (is_empty w.lemma ≡ false)) ws
    → before_stop ws ≡ ws
unfolding before_stop
before_stop-all [] h = refl
before_stop-all (w ∷ ws) h =
    let goes_on : has_no_lemma w ≡ false = ground (arith, h.0, is_empty-nil w.root_letters) in
    rw goes_on (ap (λ l. w ∷ l) (before_stop-all ws h.1))

mercy_nil :
    (c : Corpus) (key : Word) (want : ℕ) → (mercy_error c key want ≡ []) ↔ (mercy c key ≡ want)
mercy_nil c key want = ground arith

-- Check finds nothing in the texts exactly if in a full corpus each translation is of all ayas or of
-- none, French glosses reach every aya or none, each word with a root has a lemma, and in a full
-- corpus three lemmas of the root of mercy are as frequent as the source says.
pub check_texts_exact : (c : Corpus) (full : Bool) → (check_texts c full ≡ []) ↔ IsComplete c full
unfolding check_texts check_lemmas
check_texts_exact c full =
    let translations = full_nil full (translation_errors c) _ (
      append-nil_iff _ _ _ _
        (partial_nil (with_french c) (length c.ayahs) (some_french (with_french c)))
        (partial_nil (with_english c) (length c.ayahs) (some_english (with_english c)))) in
    let lemmas = first_nil lemma_error _ c.words lemma_none in
    let three = full_nil full _ _ (
      append-nil_iff _ _ _ _
        (append-nil_iff _ _ _ _ (mercy_nil c (ascii "r~aHiym") 116)
          (mercy_nil c (ascii "raHomap") 114))
        (mercy_nil c (ascii "r~aHoma`n") 57)) in
    let parts =
      append-nil_iff _ _ _ _ (append-nil_iff _ _ _ _ translations (french_nil c))
        (append-nil_iff _ _ _ _ lemmas three) in
    (
      λ e.
          let ((t, f), (l, m)) = parts.0 e in
          let same = before_stop-all c.words l in
          (t, f, l, λ q. let ((a, b), d) = m q in (rw same at a, rw same at b, rw same at d)),
      λ (t, f, l, m).
          let same = before_stop-all c.words l in
          parts.1 ((t, f), (l, λ q. let (a, b, d) = m q in ((rw same a, rw same b), rw same d))),
    )
