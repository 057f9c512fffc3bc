-- ===== src/Samples/Timings.antt =====
-- Timings of a sura of two ayas, from the file to the gate and to the manifest.
use wird.Prelude.{
  ◌≡◌, refl, ℕ, true, List, [], ◌∷◌, some, nat_eq, list_eq, pair_eq, ◌↔◌, ◌≤◌, ◌<◌, arith, map, All,
  IsNodup, ◌+◌, any,
}
use wird.Prelude.Attempt.{done}
use wird.Prelude.Map.{Map, get, put}
use wird.Text.{Word}
use wird.Text.Ascii.{ascii}
use wird.Text.Decimal.{pos, digits, format_int}
use wird.Etl.Ints.{int_ltb, int_beq, plus}
use wird.Etl.Spans.{Span, Tuple, spans, walk, read_tuple, split_of, first_bare, word_at, run}
use wird.Etl.Spans.Walks.{written, IsWalk, spans_exact}
use wird.Etl.Spans.Words.{covers, renumbered, spans_past_bare}
use wird.Etl.Rows.{Surah, Recitation, Recited, ayah_id, normalize_segments, normalize_loop}
use wird.Etl.Recite.{AyahTimings, load_recitation, recite_loop, recite_ayah, visits, timed}
use wird.Etl.Gate.{segments_loop}
use wird.Etl.Gate.Recitations.{IsKnown, loaded_passes}
use wird.Ingest.Order.{Chapter}
use wird.Ingest.Verify.{
  verify_recitation, suras_loop, count_segments, spans_loop, positions, missing_from, max_end,
  Tallies,
}
use wird.Ingest.Verify.Totals.{AreSame, untimed_totals_agree}

-- Two tuples over a text of two words, which leave out the index 1.
abbrev tuples : List Tuple
tuples =
    record { first_index = 0; end_index = 1; from_ms = pos 0; to_ms = pos 500 }
    ∷ record { first_index = 2; end_index = 3; from_ms = pos 400; to_ms = pos 900 }
    ∷ []

spans_past_bare_example : spans (map written tuples) 2 ≡ done (map (renumbered 1) tuples)
spans_past_bare_example =
    spans_past_bare 2 1 tuples (omega arith, omega arith, (omega arith, omega arith, tt))
      (omega arith) (omega arith) refl before
  where
    before : (j : ℕ) → j < 1 → any (covers j) tuples ≡ true
    before j h = ground arith

-- The file, one index too many in its first aya.
abbrev file : List AyahTimings
file =
    record { surah = 1; ayah = 1; tuples = map written tuples }
    ∷ record { surah = 1; ayah = 2; tuples = (pos 0 ∷ pos 1 ∷ pos 0 ∷ pos 700 ∷ []) ∷ [] }
    ∷ []

spans_exact_example : ((out : List Span) × (spans (map written tuples) 2 ≡ done out)) ↔ (
    (ts : List Tuple) × (map written tuples ≡ map written ts)
    × IsWalk 0 ts
    × All (λ (t : Tuple). t.end_index ≤ 2 + 1) ts)
spans_exact_example = spans_exact (map written tuples) 2

abbrev opening : Surah
opening = record {
  id = 1;
  name_ar = [];
  name_en = ascii "Al-Fatihah";
  ayah_count = 2;
  revelation_order = 5;
  revelation_place = ascii "makkah";
}

abbrev husary : Recitation
husary = record {
  slug = ascii "husary";
  timings = ascii "Husary_64kbps";
  reciter_name = ascii "Husary";
  style = ascii "Murattal";
}

abbrev counts : Map ℕ ℕ
counts = (1001, 2) ∷ (1002, 1) ∷ []

abbrev recited : Recited
recited = record {
  recitation = husary;
  segments =
      record { word = 1001001; starts = pos 0; ends = pos 500 }
      ∷ record { word = 1001002; starts = pos 400; ends = pos 900 }
      ∷ record { word = 1002001; starts = pos 0; ends = pos 700 }
      ∷ [];
  untimed = pos 0;
  clamped = 0;
}

load_recitation-file : load_recitation (some file) husary (opening ∷ []) counts ≡ done recited
unfolding load_recitation recite_loop recite_ayah visits timed run spans walk read_tuple split_of
    first_bare word_at normalize_segments normalize_loop int_ltb int_beq plus get put
load_recitation-file = refl

abbrev word_ids : List ℕ
word_ids = 1001001 ∷ 1001002 ∷ 1002001 ∷ []

known : All (IsKnown word_ids counts) (visits (opening ∷ []))
unfolding visits run get
known = (
  (omega arith, omega arith, λ p a b. ground arith),
  ((omega arith, omega arith, λ p a b. ground arith), tt),
)

apart : IsNodup (map (λ (v : ℕ × ℕ). ayah_id v.0 v.1) (visits (opening ∷ [])))
unfolding visits run
apart = (refl, (refl, tt))

loaded_passes_example : segments_loop word_ids (ascii "husary") [] recited.segments ≡ []
loaded_passes_example =
    loaded_passes word_ids counts (opening ∷ []) (some file) husary (ascii "husary") known apart
      load_recitation-file

-- The chapter and the word counts as the ingest has them.
abbrev chapter : Chapter
chapter = record { id = 1; verses_count = 2; revelation_order = 5 }

abbrev suras : List (Chapter × Map Word ℕ)
suras = (chapter, (ascii "1:1", 2) ∷ (ascii "1:2", 1) ∷ []) ∷ []

abbrev tallies : Tallies
tallies = record {
  audio_files = 2;
  segment_tuples = 3;
  words_timed = 3;
  words_with_no_timing = 0;
  ayahs_with_an_untimed_word = 0;
  split_ayahs = 1;
  ending_before = 0;
  overlapping = 1;
  multi_word_spans = 0;
  words_of_spans = 0;
}

verify_recitation-file : verify_recitation (some file) suras ≡ done tallies
unfolding verify_recitation suras_loop count_segments spans_loop positions missing_from max_end run
    spans walk read_tuple split_of first_bare word_at int_ltb get put format_int digits
verify_recitation-file = refl

same_suras : AreSame suras counts (opening ∷ [])
unfolding run get format_int digits
same_suras = (refl, refl, (((omega arith), refl), (((omega arith), refl), tt)), tt)

untimed_totals_agree_example : recited.untimed ≡ pos tallies.words_with_no_timing
untimed_totals_agree_example =
    untimed_totals_agree (some file) husary suras (opening ∷ []) counts same_suras
      verify_recitation-file load_recitation-file
