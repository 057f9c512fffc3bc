-- ===== src/Ingest/Verify.antt =====
-- verifyRecitation and countSegments of server/cmd/ingest/verify.go: the timings against the words.
-- The tallies of a recitation that is refused are left out.
pub mod Untimed
pub mod Totals
use Prim.Native.Nat.{max}
use wird.Prelude.{
  ℕ, zero, suc, ◌+◌, ◌-◌, Bool, true, false, not, ◌||◌, Option, none, some, List, [], ◌∷◌, ◌++◌,
  contains, length, ltb, nat_beq, nat_eq, list_eq, pair_eq, if◌then◌else◌,
}
use wird.Prelude.Attempt.{Attempt, done, fail, ◌>>=◌}
use wird.Prelude.Map.{Map, get}
use wird.Text.{Word}
use wird.Text.Ascii.{ascii}
use wird.Text.Decimal.{ℤ, pos, negsuc, format_int}
use wird.Etl.Ints.{int_ltb}
use wird.Etl.Spans.{Span, SpanError, run, spans}
use wird.Etl.Recite.{AyahTimings, Timings, RecitationError, load_timings}
use wird.Ingest.Order.{Chapter}

-- fmt.Sprintf("%d:%d", surah, ayah)
abbrev pub verse_key : ℕ → ℕ → Word
verse_key surah ayah = format_int surah ++ ascii ":" ++ format_int ayah

-- What is counted of a recitation.
pub record Tallies : Type 0 where
  pub audio_files : ℕ
  pub segment_tuples : ℕ
  pub words_timed : ℕ
  pub words_with_no_timing : ℕ
  pub ayahs_with_an_untimed_word : ℕ
  pub split_ayahs : ℕ
  pub ending_before : ℕ
  pub overlapping : ℕ
  pub multi_word_spans : ℕ
  pub words_of_spans : ℕ

pub data VerifyError : Type 0 where
  unloaded : RecitationError → VerifyError
  no_words no_timings : Word → VerifyError
  two_segmentations : List (Word × SpanError) → VerifyError

abbrev pub end_above : ℕ → List ℤ → ℕ
end_above n (a ∷ pos b ∷ s ∷ e ∷ []) = max b n
end_above n t = n

-- The highest end index, of the tuples that have four elements.
unfoldable pub max_end : ℕ → List (List ℤ) → ℕ
max_end n [] = n
max_end n (t ∷ raw) = max_end (end_above n t) raw

abbrev pub overlaps : Option ℤ → Span → Bool
overlaps none sp = false
overlaps (some prev_end) sp = int_ltb sp.start_ms prev_end

abbrev pub count_if : Bool → ℕ → ℕ
count_if b n = if b then n + 1 else n

abbrev pub is_multi : Span → Bool
is_multi sp = ltb sp.first_word sp.last_word

-- The body of the loop on the spans.
abbrev pub count_span : Option ℤ → Span → Tallies → Tallies
count_span prev_end sp t = record t {
  segment_tuples = t.segment_tuples + 1;
  ending_before = count_if (int_ltb sp.end_ms sp.start_ms) t.ending_before;
  overlapping = count_if (overlaps prev_end sp) t.overlapping;
  multi_word_spans = count_if (is_multi sp) t.multi_word_spans;
  words_of_spans =
      if is_multi sp then t.words_of_spans + (sp.last_word - sp.first_word) else t.words_of_spans;
}

unfoldable pub spans_loop : Option ℤ → List Span → Tallies → Tallies
spans_loop prev_end [] t = t
spans_loop prev_end (sp ∷ rest) t = spans_loop (some sp.end_ms) rest (count_span prev_end sp t)

-- The words that a span times: `timed`.
unfoldable pub positions : List Span → List ℕ
positions [] = []
positions (sp ∷ rest) = run sp.first_word (sp.last_word + 1 - sp.first_word) ++ positions rest

-- The numbers from `k`, `n` of them, that are not in the list.
unfoldable pub missing_from : ℕ → ℕ → List ℕ → ℕ
missing_from k zero timed = 0
missing_from k (suc n) timed =
    let rest = missing_from (suc k) n timed in if contains timed k then rest else rest + 1

abbrev pub missing : ℕ → List Span → ℕ
missing words out = missing_from 1 words (positions out)

abbrev pub with_missing : ℕ → ℕ → Tallies → Tallies
with_missing words n t = record t {
  words_timed = t.words_timed + (words - n);
  words_with_no_timing = if ltb 0 n then t.words_with_no_timing + n else t.words_with_no_timing;
  ayahs_with_an_untimed_word = count_if (ltb 0 n) t.ayahs_with_an_untimed_word;
}

-- The tallies and the problems.
abbrev pub Counted : Type 0
Counted = Tallies × List (Word × SpanError)

abbrev pub with_audio : Tallies → Tallies
with_audio t = record t { audio_files = t.audio_files + 1 }

abbrev pub with_split : ℕ → List (List ℤ) → Tallies → Tallies
with_split words raw t = record t {
  split_ayahs = count_if (nat_beq (max_end 0 raw) (words + 1)) t.split_ayahs;
}

-- From the spans of an aya on.
abbrev pub count_ayah : Word → ℕ → List (List ℤ) → Attempt SpanError (List Span) → Counted → Counted
count_ayah key words raw (fail e) c = (with_audio c.0, c.1 ++ (key, e) ∷ [])
count_ayah key words raw (done out) c = (
  with_missing words (missing words out)
      (spans_loop none out (with_split words raw (with_audio c.0))),
  c.1,
)

abbrev pub found_timings : Word → ℕ → Option (List (List ℤ)) → Counted → Attempt VerifyError Counted
found_timings key words none c = fail (no_timings key)
found_timings key words (some raw) c = done (count_ayah key words raw (spans raw words) c)

abbrev pub found_words :
    Word → Option ℕ → Option (List (List ℤ)) → Counted → Attempt VerifyError Counted
found_words key none raw c = fail (no_words key)
found_words key (some words) raw c = found_timings key words raw c

-- The loop on the ayas of a sura, from `ayah` on, `n` of them.
unfoldable pub count_segments :
    ℕ → Timings → Map Word ℕ → ℕ → ℕ → Counted → Attempt VerifyError Counted
unfolding spans_loop
count_segments surah all word_count ayah zero c = done c
count_segments surah all word_count ayah (suc n) c =
    let key = verse_key surah ayah in
    found_words key (get word_count key) (get all (surah, ayah)) c >>= λ c'.
    count_segments surah all word_count (suc ayah) n c'

abbrev pub no_tallies : Tallies
no_tallies = record {
  audio_files = 0;
  segment_tuples = 0;
  words_timed = 0;
  words_with_no_timing = 0;
  ayahs_with_an_untimed_word = 0;
  split_ayahs = 0;
  ending_before = 0;
  overlapping = 0;
  multi_word_spans = 0;
  words_of_spans = 0;
}

abbrev pub lift_load : Attempt RecitationError Timings → Attempt VerifyError Timings
lift_load (done t) = done t
lift_load (fail e) = fail (unloaded e)

-- The loop on the suras, each with its chapter and its word counts.
unfoldable pub suras_loop :
    Timings → List (Chapter × Map Word ℕ) → Counted → Attempt VerifyError Counted
unfolding count_segments
suras_loop all [] c = done c
suras_loop all ((ch, word_count) ∷ suras) c =
    count_segments ch.id all word_count 1 ch.verses_count c >>= λ c'. suras_loop all suras c'

abbrev pub no_problems : Counted → Attempt VerifyError Tallies
no_problems (t, []) = done t
no_problems (t, p ∷ problems) = fail (two_segmentations (p ∷ problems))

-- The report of a recitation: its tallies, or why it is refused.
unfoldable pub verify_recitation :
    Option (List AyahTimings) → List (Chapter × Map Word ℕ) → Attempt VerifyError Tallies
unfolding suras_loop
verify_recitation file suras =
    lift_load (load_timings file) >>= λ all. suras_loop all suras (no_tallies, []) >>= no_problems
