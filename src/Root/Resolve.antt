-- ===== src/Root/Resolve.antt =====
-- jidhr/pkg/root/root.go: the ladder from a word to its root, over any store.
pub mod Ladder
pub mod Spec
pub mod Answers
pub mod Rungs
pub mod Verdict
pub mod Outcomes
pub mod Templates
pub mod OverMemory
use wird.Prelude.{
  ℕ, Bool, true, false, not, ◌&&◌, ◌||◌, List, [], ◌∷◌, ◌++◌, Option, none, some, ◌==◌, contains,
  nat_eq, list_eq, if◌then◌else◌,
}
use wird.Prelude.Attempt.{Attempt, done, fail, ◌>>=◌, ◌>>◌}
use wird.Prelude.Map.{Map}
use wird.Text.{Word, is_empty, trim_space}
use wird.Text.Unicode.{Unicode}
use wird.Root.Types
use wird.Root.Types.{
  Method, Root, QuranStats, Meaning, Result, Entry, RootRecord, Candidate, NoRootError, unset,
  lexicon, normalized, lemma, stripped, pattern_match, shared,
}
use wird.Root.Store.{Store, Fault, not_found, broken}
use wird.Root.Normalize.{dropped, key}
use wird.Root.Strip.Stems.{stems}

-- The error of `Resolve`: ErrNotArabic, a *NoRootError, or the store's own error.
pub data Failure : Type 0 where
  not_arabic : Failure
  no_root : NoRootError → Failure
  store_error : Fault → Failure

-- `if err != nil { return Result{}, err }`
abbrev pub ask : {A : Type 0} → Attempt Fault A → Attempt Failure A
ask (done a) = done a
ask (fail e) = fail (store_error e)

unfoldable pub spaced : Word → Word
spaced [] = []
spaced (r ∷ []) = r ∷ []
spaced (r ∷ s ∷ word) = r ∷ 0x20 ∷ spaced (s ∷ word)

abbrev pub bare_root : Word → Root
bare_root letters = record { letters = letters; display = spaced letters; translit = [] }

abbrev pub is_lexicon : Method → Bool
is_lexicon lexicon = true
is_lexicon _ = false

module _ (u : Unicode) where
  open u use {is_letter, is_arabic}

  -- The loop of IsArabicWord, with the flag that it has set so far.
  unfoldable pub arabic_letters : Bool → Word → Bool
  unfolding dropped
  arabic_letters arabic [] = arabic
  arabic_letters arabic (r ∷ word) =
      let skip = arabic_letters arabic word in
      let next = arabic_letters true word in
      if dropped u r || not (is_letter r) then skip else if not (is_arabic r) then false else next

  unfoldable pub is_arabic_word : Word → Bool
  unfolding arabic_letters
  is_arabic_word = arabic_letters false

module _ (st : Store) where
  unfoldable pub lookup_lemma : Word → Attempt Fault (Entry × Method)
  lookup_lemma n = elim (st.entry_by_lemma n) [ done e ↦ done (e, lemma) | fail f ↦ fail f ]

  unfoldable pub lookup_normalized : Word → Attempt Fault (Entry × Method)
  lookup_normalized n = elim (st.entry_by_normalized n) [
    | done e ↦ done (e, normalized)
    | fail not_found ↦ lookup_lemma n
    | fail (broken c) ↦ fail (broken c)
  ]

  -- Rungs one to three; an empty surface skips rung one.
  unfoldable pub lookup : Word → Word → Attempt Fault (Entry × Method)
  unfolding lookup_normalized lookup_lemma
  lookup surface n =
      if is_empty surface then lookup_normalized n else elim (st.entry_by_surface surface) [
        | done e ↦ done (e, lexicon)
        | fail not_found ↦ lookup_normalized n
        | fail (broken c) ↦ fail (broken c)
      ]

  -- The end of fromLetters, once the root is settled.
  unfoldable pub with_meanings : Result → List Word → Attempt Failure Result
  with_meanings res [] = done res
  with_meanings res (l ∷ langs) = do
    meanings ← ask (st.meanings res.root.letters (l ∷ langs))
    done (record res { meanings = meanings })

  unfoldable pub from_letters : Result → Word → Method → List Word → Attempt Failure Result
  unfolding with_meanings
  from_letters res letters m langs = elim (st.root letters) [
    | done rec ↦ with_meanings (record res { method = m; root = rec.root; quran = rec.quran }) langs
    | fail not_found ↦ with_meanings (record res { method = m; root = bare_root letters }) langs
    | fail (broken c) ↦ fail (store_error (broken c))
  ]

  unfoldable pub from_entry : Result → Entry → Method → List Word → Attempt Failure Result
  from_entry res e m langs =
      from_letters (record res { lemma = e.lemma; form = e.form }) e.root m langs

  -- The loop of fromShared: the record of each root, or its bare letters.
  unfoldable pub shared_roots : List Word → Attempt Failure (List Root)
  shared_roots [] = done []
  shared_roots (l ∷ letters) = elim (st.root l) [
    | done rec ↦ do rest ← shared_roots letters; done (rec.root ∷ rest)
    | fail not_found ↦ do rest ← shared_roots letters; done (bare_root l ∷ rest)
    | fail (broken c) ↦ fail (store_error (broken c))
  ]

  -- Its callers pass a list that is not empty, `first ∷ more`.
  unfoldable pub from_shared : Result → Word → List Word → List Word → Attempt Failure Result
  from_shared res first more langs = do
    roots ← shared_roots (first ∷ more)
    from_letters (record res { roots = res.roots ++ roots }) first shared langs

  -- Rung four: the first stem that rungs one to three know, or `none`.
  unfoldable pub first_stem : List Word → Attempt Fault (Option Entry)
  first_stem [] = done none
  first_stem (stem ∷ rest) = elim (lookup [] stem) [
    | done found ↦ done (some found.0)
    | fail not_found ↦ first_stem rest
    | fail (broken c) ↦ fail (broken c)
  ]

  -- The last loop: the candidates that the store knows, and those that only have a shape.
  unfoldable pub sort_candidates : List Word → Attempt Failure (List Candidate × List Candidate)
  sort_candidates [] = done ([], [])
  sort_candidates (c ∷ considered) = elim (st.root c) [
    | done _ ↦ do
      (known, shaped) ← sort_candidates considered
      done (record { letters = c; known = true } ∷ known, shaped)
    | fail not_found ↦ do
      (known, shaped) ← sort_candidates considered
      done (known, record { letters = c; known = false } ∷ shaped)
    | fail (broken n) ↦ fail (store_error (broken n))
  ]

-- The loop that adds the readings of the templates to what was considered.
unfoldable pub add_readings : List Word → List Word → List Word
add_readings considered [] = considered
add_readings considered (c ∷ readings) =
    add_readings (if contains considered c then considered else considered ++ c ∷ []) readings

abbrev pub rootless_error : Word → Word → Failure
rootless_error word n =
    no_root (record { word = word; normalized = n; rootless = true; candidates = [] })
