-- ===== src/Ingest/Verify/Untimed.antt =====
-- The ingest and the build count the same words as untimed.
use wird.Prelude.{
  ◌≡◌, refl, sym, ap, ◌∙◌, ℕ, zero, suc, ◌+◌, ◌-◌, ◌≤◌, ◌<◌, List, [], ◌∷◌, ◌++◌, map, contains,
  length, nat_beq, nat_eq, All, All-append, IsNodup, Bool-cases, inl, inr, arith, if◌then◌else◌,
}
use wird.Prelude.Attempt.{done}
use wird.Text.Decimal.{ℤ, pos}
use wird.Etl.Ints.{minus}
use wird.Etl.Spans.{Span, run, spans}
use wird.Etl.Spans.Words.{IsInOrder, spans-IsInOrder}
use wird.Etl.Rows.{Segment, word_id, start_of, end_of, rows_of, normalize_loop, normalize_segments}
use wird.Etl.Recite.{timed}
use wird.Ingest.Verify.{positions, missing_from, missing}
use wird.Ingest.Counting.{missing_from-length}

-- Each number once, as the build collects the words that have a row.
unfoldable once : List ℕ → List ℕ
once [] = []
once (p ∷ ps) = let rest = once ps in if contains rest p then rest else p ∷ rest

contains-once : (ps : List ℕ) (i : ℕ) → contains (once ps) i ≡ contains ps i
unfolding once
contains-once [] i = refl
contains-once (p ∷ ps) i = elim (Bool-cases (nat_beq i p)) [
  | inl e ↦ let same : i ≡ p = ground (arith, e) in rw same (ground (arith, contains-once ps p))
  | inr e ↦ ground (arith, e, contains-once ps i)
]

once-IsNodup : (ps : List ℕ) → IsNodup (once ps)
unfolding once
once-IsNodup [] = tt
once-IsNodup (p ∷ ps) = ground (arith, once-IsNodup ps)

once-All : (P : ℕ → Type 0) (ps : List ℕ) → All P ps → All P (once ps)
unfolding once
once-All P [] h = tt
once-All P (p ∷ ps) h = ground (arith, once-All P ps h.1, h.0)

missing_from-once : (k n : ℕ) (ps : List ℕ) → missing_from k n (once ps) ≡ missing_from k n ps
unfolding missing_from
missing_from-once k zero ps = refl
missing_from-once k (suc n) ps = ground (arith, contains-once ps k, missing_from-once (suc k) n ps)

-- The rows of the words `ps` of an aya.
words_of_rows : List Segment → List ℕ
words_of_rows [] = []
words_of_rows (s ∷ rows) = s.word ∷ words_of_rows rows

timed-once : (rows : List Segment) → timed rows ≡ once (words_of_rows rows)
unfolding timed once words_of_rows
timed-once [] = refl
timed-once (s ∷ rows) = rw (timed-once rows) refl

ids : ℕ → List ℕ → List ℕ
ids aid [] = []
ids aid (p ∷ ps) = word_id aid p ∷ ids aid ps

contains-ids : (aid p : ℕ) (ps : List ℕ) → contains (ids aid ps) (word_id aid p) ≡ contains ps p
unfolding ids
contains-ids aid p [] = refl
contains-ids aid p (q ∷ ps) = ground (arith, contains-ids aid p ps)

length-once-ids : (aid : ℕ) (ps : List ℕ) → length (once (ids aid ps)) ≡ length (once ps)
unfolding once ids
length-once-ids aid [] = refl
length-once-ids aid (p ∷ ps) =
    let same =
      contains-once (ids aid ps) (word_id aid p)
      ∙ contains-ids aid p ps
      ∙ sym (contains-once ps p) in
    ground (arith, same, length-once-ids aid ps)

ids-run :
    (aid first n : ℕ) (s e : ℤ)
    → words_of_rows (map (λ w. record { word = word_id aid w; starts = s; ends = e }) (run first n))
      ≡ ids aid (run first n)
unfolding words_of_rows ids run
ids-run aid first zero s e = refl
ids-run aid first (suc n) s e = ap (λ l. word_id aid first ∷ l) (ids-run aid (suc first) n s e)

words_of_rows-append :
    (a b : List Segment) → words_of_rows (a ++ b) ≡ words_of_rows a ++ words_of_rows b
unfolding words_of_rows
words_of_rows-append [] b = refl
words_of_rows-append (s ∷ a) b = ap (λ l. s.word ∷ l) (words_of_rows-append a b)

ids-append : (aid : ℕ) (a b : List ℕ) → ids aid (a ++ b) ≡ ids aid a ++ ids aid b
unfolding ids
ids-append aid [] b = refl
ids-append aid (p ∷ a) b = ap (λ l. word_id aid p ∷ l) (ids-append aid a b)

-- The rows of an aya are for the positions that its spans cover.
rows-positions :
    (aid : ℕ) (prev : ℤ) (out : List Span)
    → words_of_rows (normalize_loop aid prev out).rows ≡ ids aid (positions out)
unfolding normalize_loop positions words_of_rows ids
rows-positions aid prev [] = refl
rows-positions aid prev (sp ∷ out) =
    let s = start_of prev sp in
    let n = sp.last_word + 1 - sp.first_word in
    words_of_rows-append (rows_of aid sp s (end_of s sp)) (normalize_loop aid s out).rows
    ∙ rw (ids-run aid sp.first_word n s (end_of s sp), rows-positions aid s out)
        (sym (ids-append aid (run sp.first_word n) (positions out)))

run-All :
    (words first n : ℕ)
    → 1 ≤ first
    → first + n ≤ words + 1
    → All (λ p. (1 ≤ p) × (p < 1 + words)) (run first n)
unfolding run
run-All words first zero h k = tt
run-All words first (suc n) h k =
    ((h, omega arith), run-All words (suc first) n (omega arith) (omega arith))

positions-All :
    (words low : ℕ) (out : List Span)
    → 1 ≤ low
    → IsInOrder low words out
    → All (λ p. (1 ≤ p) × (p < 1 + words)) (positions out)
unfolding positions
positions-All words low [] h o = tt
positions-All words low (sp ∷ out) h o =
    All-append _ (run sp.first_word (sp.last_word + 1 - sp.first_word)) (positions out)
      (run-All words sp.first_word (sp.last_word + 1 - sp.first_word) (omega (arith, o.0))
        (omega (arith, o.1, o.2)))
      (positions-All words sp.last_word out (omega (arith, o.0, o.1)) o.3)

-- For the same timings of an aya that has a word, what the build subtracts to count the words that
-- have no row is what the ingest counts one by one.
pub untimed_agree :
    (raw : List (List ℤ)) (words aid : ℕ) (out : List Span)
    → 1 ≤ words
    → spans raw words ≡ done out
    → minus words (length (timed (normalize_segments out aid).rows)) ≡ pos (missing words out)
unfolding normalize_segments
untimed_agree raw words aid out one h =
    let ps = positions out in
    let inside = positions-All words 1 out (omega arith) (spans-IsInOrder raw words out one h) in
    let rows : timed (normalize_segments out aid).rows ≡ once (ids aid ps) =
      timed-once (normalize_segments out aid).rows ∙ ap once (rows-positions aid (pos 0) out) in
    let long = length-once-ids aid ps in
    let all = missing_from-length 1 words (once ps) (once-All _ ps inside) (once-IsNodup ps) in
    let left = missing_from-once 1 words ps in rw rows (ground (arith, long, all, left))
