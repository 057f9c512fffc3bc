-- ===== src/Etl/Spans/Walks.antt =====
-- Which timings pass: the walks over the words that go one word past the text at most.

use wird.Prelude.{
  ◌≡◌, refl, ℕ, ◌+◌, ◌-◌, ◌≤◌, ◌<◌, ◌↔◌, true, List, [], ◌∷◌, map, inl, inr, nat_beq, All,
  Bool-cases, arith,
}
use wird.Prelude.Attempt.{done, >>=-eq-done}
use wird.Text.Decimal.{ℤ, pos, negsuc}
use wird.Etl.Spans.{
  Tuple, Span, read_tuple, Walked, with_tuple, walk, split_of, spans, span_of, first_bare,
}

abbrev pub written : Tuple → List ℤ
written t = pos t.first_index ∷ pos t.end_index ∷ t.from_ms ∷ t.to_ms ∷ []

-- Each tuple has a word at least, and starts no earlier than the one before it ends.
abbrev pub IsWalk : ℕ → List Tuple → Type 0
IsWalk prev_to [] = Unit {0}
IsWalk prev_to (t ∷ ts) =
    (prev_to ≤ t.first_index) × (t.first_index < t.end_index) × IsWalk t.end_index ts

abbrev pub walked : ℕ → List Tuple → Walked
walked word_count [] = record { slots = word_count; aligned = []; tuples = [] }
walked word_count (t ∷ ts) = with_tuple t (walked word_count ts)

read_tuple-written :
    (prev_to : ℕ) (t : Tuple)
    → prev_to ≤ t.first_index
    → t.first_index < t.end_index
    → read_tuple prev_to (written t) ≡ done t
unfolding read_tuple
read_tuple-written prev_to t h k = ground arith

-- A walk is read.
pub walk_reads :
    (word_count prev_to : ℕ) (ts : List Tuple)
    → IsWalk prev_to ts
    → walk word_count prev_to (map written ts) ≡ done (walked word_count ts)
unfolding walk
walk_reads word_count prev_to [] h = refl
walk_reads word_count prev_to (t ∷ ts) h =
    rw (read_tuple-written prev_to t h.0 h.1, walk_reads word_count t.end_index ts h.2) refl

read_tuple_inv :
    (prev_to : ℕ) (raw : List ℤ) (t : Tuple)
    → read_tuple prev_to raw ≡ done t
    → (raw ≡ written t) × (prev_to ≤ t.first_index) × (t.first_index < t.end_index)
unfolding read_tuple
read_tuple_inv prev_to [] t h = cc
read_tuple_inv prev_to (a ∷ []) t h = cc
read_tuple_inv prev_to (a ∷ b ∷ []) t h = cc
read_tuple_inv prev_to (a ∷ b ∷ s ∷ []) t h = cc
read_tuple_inv prev_to (negsuc a ∷ b ∷ s ∷ e ∷ []) t h = cc
read_tuple_inv prev_to (pos a ∷ negsuc b ∷ s ∷ e ∷ []) t h = cc
read_tuple_inv prev_to (pos a ∷ pos b ∷ s ∷ e ∷ []) t h = ground arith
read_tuple_inv prev_to (a ∷ b ∷ s ∷ e ∷ x ∷ xs) t h = cc

pub walk_inv :
    (word_count prev_to : ℕ) (raw : List (List ℤ)) {w : Walked}
    → walk word_count prev_to raw ≡ done w
    → (ts : List Tuple) × (raw ≡ map written ts) × (w ≡ walked word_count ts) × IsWalk prev_to ts
unfolding walk
walk_inv word_count prev_to [] h = ([], refl, cc, tt)
walk_inv word_count prev_to (r ∷ raw) h =
    let (t, read, rest) = >>=-eq-done (read_tuple prev_to r) _ h in
    let (v, went, last) = >>=-eq-done (walk word_count t.end_index raw) _ rest in
    let (ts, spelt, same, path) = walk_inv word_count t.end_index raw went in
    let (here, after, before) = read_tuple_inv prev_to r t read in
    (t ∷ ts, cc, cc, (after, before, path))

-- The most slots that a walk asks for.
pub slots_le :
    (word_count n : ℕ) (ts : List Tuple)
    → word_count ≤ n
    → ((walked word_count ts).slots ≤ n) ↔ All (λ t. t.end_index ≤ n) ts
slots_le word_count n [] h = (λ _. tt, λ _. h)
slots_le word_count n (t ∷ ts) h = ground (arith, slots_le word_count n ts h)

pub slots-ge : (word_count : ℕ) (ts : List Tuple) → word_count ≤ (walked word_count ts).slots
slots-ge word_count [] = omega arith
slots-ge word_count (t ∷ ts) = omega (arith, slots-ge word_count ts)

split_reads :
    (word_count : ℕ) (w : Walked)
    → word_count ≤ w.slots
    → w.slots ≤ word_count + 1
    → (split : ℕ) × (split_of word_count w ≡ done split)
unfolding split_of
split_reads word_count w h k = elim (Bool-cases (nat_beq w.slots word_count)) [
  | inl e ↦ (w.slots, rw e refl)
  | inr e ↦
      let one : nat_beq w.slots (word_count + 1) ≡ true = ground (arith, e) in
      (first_bare w.aligned (w.slots - 1) 0 w.slots, rw (e, one) refl)
]

split_inv :
    (word_count : ℕ) (w : Walked) {split : ℕ}
    → split_of word_count w ≡ done split
    → w.slots ≤ word_count + 1
unfolding split_of
split_inv word_count w h = ground arith

-- An aya's timings are read exactly if they are a walk over the words of the text and one at most
-- beyond it.
pub spans_exact :
    (raw : List (List ℤ)) (word_count : ℕ)
    → ((out : List Span) × (spans raw word_count ≡ done out)) ↔ (
        (ts : List Tuple) × (raw ≡ map written ts)
        × IsWalk 0 ts
        × All (λ t. t.end_index ≤ word_count + 1) ts)
unfolding spans
spans_exact raw word_count = (
  λ (out, h).
      let (w, went, rest) = >>=-eq-done (walk word_count 0 raw) _ h in
      let (split, parted, last) = >>=-eq-done (split_of word_count w) _ rest in
      let (ts, spelt, same, path) = walk_inv word_count 0 raw went in
      (
        ts,
        spelt,
        path,
        (slots_le word_count (word_count + 1) ts (omega arith)).0
            (rw (← same) (split_inv word_count w parted)),
      ),
  λ (ts, spelt, path, below).
      let (split, parted) =
        split_reads word_count (walked word_count ts) (slots-ge word_count ts)
          ((slots_le word_count (word_count + 1) ts (omega arith)).1 below) in
      (
        map (span_of word_count split) (walked word_count ts).tuples,
        rw (spelt, walk_reads word_count 0 ts path, parted) refl,
      ),
)
