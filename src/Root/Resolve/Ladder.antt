-- ===== src/Root/Resolve/Ladder.antt =====
-- `Resolve` of jidhr/pkg/root/root.go. The readings of the templates are an argument, `propose`,
-- so that what depends on them can be said; the program's are those of `Root.Pattern`.
use wird.Prelude.{
  Bool, true, false, not, ◌&&◌, List, [], ◌∷◌, ◌++◌, Option, none, some, ◌==◌, contains, nat_eq,
  list_eq, if◌then◌else◌,
}
use wird.Prelude.Attempt.{Attempt, done, fail, ◌>>=◌, ◌>>◌}
use wird.Text.{Word, is_empty, trim_space}
use wird.Text.Unicode.{Unicode}
use wird.Root.Types.{Method, Result, Entry, unset, lexicon, stripped, pattern_match}
use wird.Root.Store.{Store, Fault, not_found, broken}
use wird.Root.Normalize.{key}
use wird.Root.Pattern.{match_pattern}
use wird.Root.Strip.Stems.{stems}
use wird.Root.Resolve.{
  Failure, not_arabic, no_root, store_error, ask, is_lexicon, is_arabic_word, lookup, from_letters,
  from_entry, from_shared, first_stem, sort_candidates, add_readings, rootless_error,
}

abbrev pub is_nil : List Word → Bool
is_nil [] = true
is_nil (w ∷ ws) = false

-- The forms that were considered before rung four.
unfoldable pub forms : Word → Word → List Word
forms word n = if n == word then word ∷ [] else word ∷ n ∷ []

-- The one root that the exact spelling is recorded under, if the key has it too.
unfoldable pub settled : List Word → List Word → Option Word
settled attested [] = none
settled attested (x ∷ []) = if contains attested x then some x else none
settled attested (x ∷ y ∷ more) = none

module _ (u : Unicode) where
  unfoldable pub normal_form : Word → Word
  normal_form word = let n = key u word in if is_empty n then word else n

  unfoldable pub blank : Word → Result
  unfolding normal_form
  blank word = record {
    input = word;
    normalized = normal_form word;
    root = record { letters = []; display = []; translit = [] };
    roots = [];
    rootless = false;
    lemma = [];
    form = [];
    method = unset;
    quran = none;
    meanings = [];
  }

module _ (propose : Word → List Word) (st : Store) where
  -- The end of `Resolve`: everything that was on the table, and no root.
  unfoldable pub report : Word → Word → List Word → Attempt Failure Result
  report word n considered = do
    (known, shaped) ← sort_candidates st considered
    fail (
        no_root
          (record { word = word; normalized = n; rootless = false; candidates = known ++ shaped }))

  -- Several roots: the one that the caller's own diacritics settle, or all.
  unfoldable pub choose :
      Result → Bool → Word → List Word → List Word → Option Word → Attempt Failure Result
  choose res key_rootless a more langs none =
      from_shared st (record res { rootless = key_rootless }) a more langs
  choose res key_rootless a more langs (some x) = from_letters st res x lexicon langs

  unfoldable pub from_attested :
      Word → Result → Bool → Bool → Word → List Word → List Word → Attempt Failure Result
  from_attested word res surface_rootless key_rootless a more langs =
      if is_nil more && not key_rootless then from_letters st res a pattern_match langs else do
        exact ← ask (st.attests_surface word)
        choose res key_rootless a more langs
            (if surface_rootless then none else settled (a ∷ more) exact)

  unfoldable pub after_attests :
      Word → Result → Bool → Bool → List Word → List Word → List Word → Attempt Failure Result
  after_attests word res surface_rootless key_rootless considered langs [] =
      if key_rootless
      then fail (rootless_error word res.normalized)
      else report word res.normalized (add_readings considered (propose res.normalized))
  after_attests word res surface_rootless key_rootless considered langs (a ∷ more) =
      from_attested word res surface_rootless key_rootless a more langs

  -- Rung five.
  unfoldable pub attested_rung :
      Word → Result → Bool → Bool → List Word → List Word → Attempt Failure Result
  attested_rung word res surface_rootless key_rootless considered langs = do
    attested ← ask (st.attests res.normalized)
    after_attests word res surface_rootless key_rootless considered langs attested

  unfoldable pub after_stems :
      Word → Result → Bool → Bool → List Word → List Word → Option Entry → Attempt Failure Result
  after_stems word res surface_rootless key_rootless considered langs (some entry) =
      from_entry st (record res { rootless = key_rootless }) entry stripped langs
  after_stems word res surface_rootless key_rootless considered langs none =
      attested_rung word res surface_rootless key_rootless considered langs

  -- Rung four, and what follows a miss there.
  unfoldable pub stripped_rung : Word → Result → Bool → Bool → List Word → Attempt Failure Result
  stripped_rung word res surface_rootless key_rootless langs = do
    let peeled = stems res.normalized
    hit ← ask (first_stem st peeled)
    after_stems word res surface_rootless key_rootless (forms word res.normalized ++ peeled) langs
        hit

  unfoldable pub after_lookup :
      Word
      → Result
      → Bool
      → Bool
      → List Word
      → Attempt Fault (Entry × Method)
      → Attempt Failure Result
  after_lookup word res surface_rootless key_rootless langs (done (entry, method)) =
      from_entry st (record res { rootless = key_rootless && not (is_lexicon method) }) entry method
        langs
  after_lookup word res surface_rootless key_rootless langs (fail not_found) =
      stripped_rung word res surface_rootless key_rootless langs
  after_lookup word res surface_rootless key_rootless langs (fail (broken c)) =
      fail (store_error (broken c))

  -- The ladder, once the corpus has not settled the very spelling as rootless.
  unfoldable pub rungs : Word → Result → Bool → List Word → Attempt Failure Result
  rungs word res surface_rootless langs = do
    key_rootless ← ask (st.rootless res.normalized)
    after_lookup word res surface_rootless key_rootless langs (lookup st word res.normalized)

  -- A spelling that the corpus writes under no root, and never under one, is settled above every
  -- rung.
  unfoldable pub settle_rootless : Word → Word → Bool → Attempt Failure (Unit {0})
  settle_rootless word n false = done tt
  settle_rootless word n true = do
    exact ← ask (st.attests_surface word)
    if is_nil exact then fail (rootless_error word n) else done tt

  module _ (u : Unicode) where
    unfoldable pub resolve_trimmed : Word → List Word → Attempt Failure Result
    resolve_trimmed word langs = if not (is_arabic_word u word) then fail not_arabic else do
      surface_rootless ← ask (st.rootless_surface word)
      settle_rootless word (normal_form u word) surface_rootless
      rungs word (blank u word) surface_rootless langs

    unfoldable pub resolve : Word → List Word → Attempt Failure Result
    resolve word langs = resolve_trimmed (trim_space word) langs

-- `New(st).Resolve`, with the readings of the program's templates.
unfoldable pub resolve_word : Unicode → Store → Word → List Word → Attempt Failure Result
resolve_word u st = resolve (match_pattern u) st u
