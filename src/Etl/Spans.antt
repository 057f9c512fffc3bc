-- ===== src/Etl/Spans.antt =====
-- Spans of server/internal/timings/timings.go: the words that an aya's timings stand for, where the
-- aligner numbers one word more than the text.
pub mod Walks
pub mod Words
use Prim.Native.Nat.{min, max}
use wird.Prelude.{
  ℕ, zero, suc, ◌+◌, ◌-◌, Bool, true, false, ◌||◌, List, [], ◌∷◌, ◌++◌, map, contains, nat_eq, ltb,
  leb, nat_beq, if◌then◌else◌,
}
use wird.Prelude.Attempt.{Attempt, done, fail, ◌>>=◌}
use wird.Text.Decimal.{ℤ, pos, negsuc}

-- [word_start_index, word_end_index, start_ms, end_ms]
pub record Tuple : Type 0 where
  pub first_index : ℕ
  pub end_index : ℕ
  pub from_ms : ℤ
  pub to_ms : ℤ

pub record Span : Type 0 where
  pub first_word : ℕ
  pub last_word : ℕ
  pub start_ms : ℤ
  pub end_ms : ℤ

pub data SpanError : Type 0 where
  wrong_shape not_a_walk two_segmentations : SpanError

-- The test on the indices. `prev_to` is 0 or the end of a tuple that passed, so it is no less than 0,
-- and an end that is negative is not above a start that passed.
abbrev pub read_indices : ℕ → ℤ → ℤ → ℤ → ℤ → Attempt SpanError Tuple
read_indices prev_to (pos a) (pos b) s e =
    if leb b a || ltb a prev_to
    then fail not_a_walk
    else done (record { first_index = a; end_index = b; from_ms = s; to_ms = e })
read_indices prev_to (pos a) (negsuc b) s e = fail not_a_walk
read_indices prev_to (negsuc a) b s e = fail not_a_walk

unfoldable pub read_tuple : ℕ → List ℤ → Attempt SpanError Tuple
read_tuple prev_to (a ∷ b ∷ s ∷ e ∷ []) = read_indices prev_to a b s e
read_tuple prev_to t = fail wrong_shape

-- The variables of the first loop, and the tuples that it has read.
pub record Walked : Type 0 where
  pub slots : ℕ
  pub aligned : List ℕ
  pub tuples : List Tuple

-- The numbers from `k`, `n` of them.
unfoldable pub run : ℕ → ℕ → List ℕ
run k zero = []
run k (suc n) = k ∷ run (suc k) n

abbrev pub with_tuple : Tuple → Walked → Walked
with_tuple t w = record {
  slots = max t.end_index w.slots;
  aligned = run t.first_index (t.end_index - t.first_index) ++ w.aligned;
  tuples = t ∷ w.tuples;
}

-- The first loop, on the tuples that are left.
unfoldable pub walk : ℕ → ℕ → List (List ℤ) → Attempt SpanError Walked
unfolding read_tuple
walk word_count prev_to [] = done (record { slots = word_count; aligned = []; tuples = [] })
walk word_count prev_to (t ∷ raw) = read_tuple prev_to t >>= λ tuple.
    walk word_count tuple.end_index raw >>= λ w. done (with_tuple tuple w)

-- The first of `n` slots from `k` that nothing aligned, or `tail` if there is none.
unfoldable pub first_bare : List ℕ → ℕ → ℕ → ℕ → ℕ
first_bare aligned tail k zero = tail
first_bare aligned tail k (suc n) =
    let rest = first_bare aligned tail (suc k) n in if contains aligned k then rest else k

-- The index at which the two numberings part.
unfoldable pub split_of : ℕ → Walked → Attempt SpanError ℕ
unfolding first_bare
split_of word_count w =
    if nat_beq w.slots word_count
    then done w.slots
    else if nat_beq w.slots (word_count + 1)
    then done (first_bare w.aligned (w.slots - 1) 0 w.slots)
    else fail two_segmentations

unfoldable pub word_at : ℕ → ℕ → ℕ → ℕ
word_at word_count split slot =
    let w = if leb split slot then slot else slot + 1 in min (max w 1) word_count

abbrev pub span_of : ℕ → ℕ → Tuple → Span
span_of word_count split t = record {
  first_word = word_at word_count split t.first_index;
  last_word = word_at word_count split (t.end_index - 1);
  start_ms = t.from_ms;
  end_ms = t.to_ms;
}

unfoldable pub spans : List (List ℤ) → ℕ → Attempt SpanError (List Span)
unfolding walk split_of word_at
spans raw word_count = walk word_count 0 raw >>= λ w.
    split_of word_count w >>= λ split. done (map (span_of word_count split) w.tuples)
