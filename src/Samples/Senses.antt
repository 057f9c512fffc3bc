-- ===== src/Samples/Senses.antt =====
-- The root of writing with two slots of glosses, a sense of it, and floats as thousandths.
use wird.Prelude.{
  List, nat_eq, list_eq, ℕ, ◌+◌, ◌*◌, ◌/◌, ◌≤◌, ◌<◌, ◌≡◌, ◌↔◌, ◌⊎◌, refl, false, true, [], ◌∷◌,
  none, some, arith, length, ltb, leb,
}
use wird.Text.{Word}
use wird.Text.Ascii.{ascii}
use wird.Senses.English.{suffixes, irregular}
use wird.Senses.Stem.{
  has_suffix, plural, least, can_strip, strip_one, strip_all, stripped, end_y, silent_e, stem,
}
use wird.Senses.Corpus.{Slot, Root}
use wird.Senses.Glosses.{no_tally, slots_loop}
use wird.Senses.Glosses.Counts.{IsCounted, tested_of, heard_of, slots_loop_lem}
use wird.Senses.Bucket.{WordRow, Reader, bucket}
use wird.Senses.Bucket.Words.{rows_of}
use wird.Senses.Bucket.Roots.{carried, said, bucket_words}
use wird.Senses.Score.{
  Floats, Bar, Result, verified_sense, leads_with_minority, check, verified, verdict,
}
use wird.Senses.Score.Verdicts.{Passes, verdict_exact}
use wird.Prelude.Map.{get}

abbrev same : Word → Word
same w = w

abbrev nouns : Slot
nouns = record {
  name = ascii "noun";
  glosses =
      record { text = ascii "a book"; n = 12; word = [] }
      ∷ record { text = ascii "face to face"; n = 2; word = [] }
      ∷ [];
}

abbrev verbs : Slot
verbs = record {
  name = ascii "form-I";
  glosses = record { text = ascii "they wrote"; n = 5; word = [] } ∷ [];
}

abbrev writing : Root
writing = record { letters = []; slots = nouns ∷ verbs ∷ []; words = 19; ix = none }

-- Thousandths.
abbrev thousandths : Floats ℕ
thousandths = record {
  of_int = λ n. n * 1000;
  plus = λ a b. a + b;
  times = λ a b. a * b / 1000;
  over = λ a b. a * 1000 / b;
  less = ltb;
  at_most = leb;
}

abbrev bar : Bar ℕ
bar = record { score = 300; coverage = 500; dispersion = 4; branch = 250 }

powerful : stem (ascii "powerful") ≡ ascii "pow"
unfolding stem silent_e end_y stripped strip_all strip_one can_strip least plural has_suffix
    suffixes irregular get
powerful = refl

-- Two spellings of one word in two places.
sincere : stem (ascii "sincere") ≡ ascii "sincer"
unfolding stem silent_e end_y stripped strip_all strip_one can_strip least plural has_suffix
    suffixes irregular get
sincere = refl

sincerity : stem (ascii "sincerity") ≡ ascii "sinc"
unfolding stem silent_e end_y stripped strip_all strip_one can_strip least plural has_suffix
    suffixes irregular get
sincerity = refl

slots_loop_lem_example :
    IsCounted
      (ascii "book" ∷ [])
      (slots_loop same (ascii "book" ∷ []) (nouns ∷ verbs ∷ []) ([], no_tally)).1
    × ((slots_loop same (ascii "book" ∷ []) (nouns ∷ verbs ∷ []) ([], no_tally)).1.answerable
        ≡ tested_of same (ascii "book" ∷ []) (nouns ∷ verbs ∷ []))
    × ((slots_loop same (ascii "book" ∷ []) (nouns ∷ verbs ∷ []) ([], no_tally)).1.occurrences
        ≡ heard_of same (ascii "book" ∷ []) (nouns ∷ verbs ∷ []))
slots_loop_lem_example = slots_loop_lem same (ascii "book" ∷ []) (nouns ∷ verbs ∷ [])

abbrev judged : Result ℕ
judged = check thousandths same (some writing) (ascii "to write; a book")

verdict_exact_example :
    ((verdict thousandths judged bar ≡ verified_sense)
      ↔ ((2 ≤ length judged.slots) × (verified thousandths judged bar ≡ true)))
    × ((verdict thousandths judged bar ≡ leads_with_minority) ↔ (
        (2 ≤ length judged.slots)
        × Passes thousandths judged bar
        × ((judged.slots_hit < 2) ⊎ (judged.leads ≡ false))))
verdict_exact_example = verdict_exact thousandths judged bar (λ a b. ground arith)

-- Two words of one root and one without a gloss.
abbrev corpus : List WordRow
corpus =
    record { root = ascii "ktb"; gloss = ascii "a book"; text = []; form = []; morphology = [] }
    ∷ record { root = ascii "ktb"; gloss = ascii "a book"; text = []; form = []; morphology = [] }
    ∷ record { root = ascii "ktb"; gloss = []; text = []; form = []; morphology = [] }
    ∷ []

abbrev reader : Reader
reader = record { segments = λ w. none; to_lower = same }

bucket_words_example :
    (carried (get (bucket reader corpus) (ascii "ktb")) ≡ rows_of (ascii "ktb") corpus)
    × (said (get (bucket reader corpus) (ascii "ktb")) ≡ rows_of (ascii "ktb") corpus)
bucket_words_example = bucket_words reader corpus (ascii "ktb")
