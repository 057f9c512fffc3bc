-- ===== src/Etl/Recite.antt =====
-- Load of server/internal/timings/timings.go, and loadRecitation of server/cmd/etl/load.go with the
-- recitations that Load keeps and refuses.
pub mod Blocks
use wird.Prelude.{
  ℕ, zero, suc, ◌+◌, Bool, true, false, Option, none, some, List, [], ◌∷◌, ◌++◌, map, contains,
  length, nat_eq, pair_eq, if◌then◌else◌,
}
use wird.Prelude.Attempt.{Attempt, done, fail, ◌>>=◌}
use wird.Prelude.Map.{Map, get, put}
use wird.Text.{Word}
use wird.Text.Decimal.{ℤ, pos}
use wird.Etl.Ints.{int_ltb, minus, plus}
use wird.Etl.Spans.{Span, SpanError, run, spans}
use wird.Etl.Rows.{Surah, Segment, Recitation, Recited, Normalized, ayah_id, normalize_segments}

-- One entry of a timings file.
pub record AyahTimings : Type 0 where
  pub surah : ℕ
  pub ayah : ℕ
  pub tuples : List (List ℤ)

abbrev pub Timings : Type 0
Timings = Map (ℕ × ℕ) (List (List ℤ))

pub data RecitationError : Type 0 where
  unreadable carries_no_ayas : RecitationError
  no_timing : ℕ → ℕ → RecitationError
  not_reconciled : ℕ → ℕ → SpanError → RecitationError
  too_many_untimed : ℤ → RecitationError

abbrev pub timings_loop : Timings → List AyahTimings → Timings
timings_loop out [] = out
timings_loop out (a ∷ ayahs) = timings_loop (put out (a.surah, a.ayah) a.tuples) ayahs

-- The file, or `none` where it cannot be read or decoded.
abbrev pub load_timings : Option (List AyahTimings) → Attempt RecitationError Timings
load_timings none = fail unreadable
load_timings (some []) = fail carries_no_ayas
load_timings (some (a ∷ ayahs)) = done (timings_loop [] (a ∷ ayahs))

abbrev pub max_untimed_words : ℤ
max_untimed_words = pos 100

-- The two loops on the suras and their ayas, as the pairs that they visit.
unfoldable pub visits : List Surah → List (ℕ × ℕ)
visits [] = []
visits (su ∷ surahs) = map (λ ayah. (su.id, ayah)) (run 1 su.ayah_count) ++ visits surahs

abbrev pub tuples_at : Option (List (List ℤ)) → List (List ℤ)
tuples_at none = []
tuples_at (some raw) = raw

abbrev pub count_at : Option ℕ → ℕ
count_at none = 0
count_at (some n) = n

-- The words that have a row, each once.
unfoldable pub timed : List Segment → List ℕ
timed [] = []
timed (s ∷ segments) =
    let rest = timed segments in if contains rest s.word then rest else s.word ∷ rest

abbrev pub lift_spans : ℕ → ℕ → Attempt SpanError (List Span) → Attempt RecitationError (List Span)
lift_spans surah ayah (done out) = done out
lift_spans surah ayah (fail e) = fail (not_reconciled surah ayah e)

abbrev pub with_rows : ℕ → Normalized → Recited → Recited
with_rows words n r = record r {
  segments = r.segments ++ n.rows;
  clamped = r.clamped + n.changed;
  untimed = plus r.untimed (minus words (length (timed n.rows)));
}

-- The body of the inner loop, on the segments of the aya, of which there are none where it is missing.
abbrev pub recite_tuples : Recited → ℕ → ℕ → ℕ → List (List ℤ) → Attempt RecitationError Recited
recite_tuples r words surah ayah [] = fail (no_timing surah ayah)
recite_tuples r words surah ayah (t ∷ raw) =
    lift_spans surah ayah (spans (t ∷ raw) words) >>= λ out.
    done (with_rows words (normalize_segments out (ayah_id surah ayah)) r)

abbrev pub words_of : Map ℕ ℕ → ℕ × ℕ → ℕ
words_of words_per_ayah v = count_at (get words_per_ayah (ayah_id v.0 v.1))

module _ (segs : Timings) (words_per_ayah : Map ℕ ℕ) where
  unfoldable pub recite_ayah : Recited → ℕ × ℕ → Attempt RecitationError Recited
  recite_ayah r v = recite_tuples r (words_of words_per_ayah v) v.0 v.1 (tuples_at (get segs v))

  unfoldable pub recite_loop : Recited → List (ℕ × ℕ) → Attempt RecitationError Recited
  unfolding recite_ayah
  recite_loop r [] = done r
  recite_loop r (v ∷ rest) = recite_ayah r v >>= λ next. recite_loop next rest

abbrev pub within_untimed : Recited → Attempt RecitationError Recited
within_untimed r =
    if int_ltb max_untimed_words r.untimed then fail (too_many_untimed r.untimed) else done r

unfoldable pub load_recitation :
    Option (List AyahTimings) → Recitation → List Surah → Map ℕ ℕ → Attempt RecitationError Recited
unfolding recite_loop visits
load_recitation file rec surahs words_per_ayah = load_timings file >>= λ segs.
    recite_loop segs words_per_ayah
      (record { recitation = rec; segments = []; untimed = pos 0; clamped = 0 }) (visits surahs)
    >>= within_untimed

-- The recitations that passed, and those refused, each with its error.
pub record Outcome : Type 0 where
  pub recited : List Recited
  pub refused : List (Recitation × RecitationError)

abbrev pub judge : Recitation → Attempt RecitationError Recited → Outcome → Outcome
judge rec (done r) o = record o { recited = r ∷ o.recited }
judge rec (fail e) o = record o { refused = (rec, e) ∷ o.refused }

unfoldable pub recitations_loop :
    (Word → Option (List AyahTimings)) → List Recitation → List Surah → Map ℕ ℕ → Outcome
unfolding load_recitation
recitations_loop file [] surahs words_per_ayah = record { recited = []; refused = [] }
recitations_loop file (rec ∷ recitations) surahs words_per_ayah =
    judge rec (load_recitation (file rec.timings) rec surahs words_per_ayah)
      (recitations_loop file recitations surahs words_per_ayah)
