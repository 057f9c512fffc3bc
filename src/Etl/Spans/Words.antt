-- ===== src/Etl/Spans/Words.antt =====
-- Which words the timings of an aya are given to.
use wird.Prelude.{
  ◌≡◌, refl, sym, ap, subst, ◌∙◌, ℕ, zero, suc, ◌+◌, ◌-◌, ◌≤◌, ◌<◌, Bool, true, false, ◌&&◌, List,
  [], ◌∷◌, map, inl, inr, ltb, leb, nat_beq, any, contains, contains-append, nat_eq, All, All-imp,
  Bool-cases, arith, if◌then◌else◌,
}
use wird.Prelude.Attempt.{done, >>=-eq-done}
use wird.Etl.Spans.{Tuple, Span, Walked, run, walk, first_bare, word_at, split_of, spans, span_of}
use wird.Etl.Spans.Walks.{written, IsWalk, walked, walk_reads, walk_inv, slots-ge, slots_le}

tuples-walked : (word_count : ℕ) (ts : List Tuple) → (walked word_count ts).tuples ≡ ts
tuples-walked word_count [] = refl
tuples-walked word_count (t ∷ ts) = ap (λ us. t ∷ us) (tuples-walked word_count ts)

-- A span starts at the word the one before ended with or later, and ends there or later, within the
-- words of the aya.
abbrev pub IsInOrder : ℕ → ℕ → List Span → Type 0
IsInOrder low word_count [] = Unit {0}
IsInOrder low word_count (s ∷ rest) =
    (low ≤ s.first_word)
    × (s.first_word ≤ s.last_word)
    × (s.last_word ≤ word_count)
    × IsInOrder s.last_word word_count rest

word_at_mono :
    (word_count split i j : ℕ) → i ≤ j → word_at word_count split i ≤ word_at word_count split j
unfolding word_at
word_at_mono word_count split i j h = ground arith

word_at_bounds :
    (word_count split i : ℕ)
    → 1 ≤ word_count
    → (1 ≤ word_at word_count split i) × (word_at word_count split i ≤ word_count)
unfolding word_at
word_at_bounds word_count split i h = ground arith

spans-IsInOrder_from :
    (word_count split prev_to low : ℕ) (ts : List Tuple)
    → 1 ≤ word_count
    → IsWalk prev_to ts
    → ((j : ℕ) → prev_to ≤ j → low ≤ word_at word_count split j)
    → IsInOrder low word_count (map (span_of word_count split) ts)
spans-IsInOrder_from word_count split prev_to low [] one h above = tt
spans-IsInOrder_from word_count split prev_to low (t ∷ ts) one h above = (
  above t.first_index h.0,
  word_at_mono word_count split t.first_index (t.end_index - 1) (omega (arith, h.1)),
  (word_at_bounds word_count split (t.end_index - 1) one).1,
  spans-IsInOrder_from word_count split t.end_index _ ts one h.2
      (λ j k. word_at_mono word_count split (t.end_index - 1) j (omega arith)),
)

-- For an aya that has a word, the spans read from its timings go forward over its words, and none
-- names a word that is not of the aya.
pub spans-IsInOrder :
    (raw : List (List wird.Text.Decimal.ℤ)) (word_count : ℕ) (out : List Span)
    → 1 ≤ word_count
    → spans raw word_count ≡ done out
    → IsInOrder 1 word_count out
unfolding spans
spans-IsInOrder raw word_count out one h =
    let (w, went, rest) = >>=-eq-done (walk word_count 0 raw) _ h in
    let (split, parted, last) = >>=-eq-done (split_of word_count w) _ rest in
    let (ts, spelt, same, path) = walk_inv word_count 0 raw went in
    let these : w.tuples ≡ ts = ap (λ (v : Walked). v.tuples) same ∙ tuples-walked word_count ts in
    let made : map (span_of word_count split) w.tuples ≡ out = cc in
    subst (IsInOrder 1 word_count) (ap (map (span_of word_count split)) (sym these) ∙ made) (
      spans-IsInOrder_from word_count split 0 1 ts one path
        (λ j k. (word_at_bounds word_count split j one).0))

abbrev pub covers : ℕ → Tuple → Bool
covers index t = leb t.first_index index && ltb index t.end_index

contains-run : (k n j : ℕ) → contains (run k n) j ≡ (leb k j && ltb j (k + n))
unfolding run
contains-run k zero j = ground arith
contains-run k (suc n) j = ground (arith, contains-run (suc k) n j)

contains-aligned :
    (word_count j : ℕ) (ts : List Tuple) (prev_to : ℕ)
    → IsWalk prev_to ts
    → contains (walked word_count ts).aligned j ≡ any (covers j) ts
contains-aligned word_count j [] prev_to h = refl
contains-aligned word_count j (t ∷ ts) prev_to h =
    contains-append (run t.first_index (t.end_index - t.first_index)) (walked word_count ts).aligned
      j
    ∙ ground (
      arith,
      contains-run t.first_index (t.end_index - t.first_index) j,
      h.1,
      contains-aligned word_count j ts t.end_index h.2,
    )

first_bare_at :
    (aligned : List ℕ) (tail i k n : ℕ)
    → i ≤ k
    → k < i + n
    → contains aligned k ≡ false
    → ((j : ℕ) → j < k → contains aligned j ≡ true)
    → first_bare aligned tail i n ≡ k
unfolding first_bare
first_bare_at aligned tail i k zero h l bare before = absurd (omega arith)
first_bare_at aligned tail i k (suc n) h l bare before = elim (Bool-cases (nat_beq i k)) [
  | inl e ↦ let same : i ≡ k = ground (arith, e) in rw same (rw bare refl)
  | inr e ↦
      let covered = before i (ground (arith, e)) in
      rw covered
        (first_bare_at aligned tail (suc i) k n (ground (arith, e)) (omega arith) bare before)
]

-- The number of the word that an index names, where the index `bare` is the one too many.
abbrev pub word_past : ℕ → ℕ → ℕ
word_past bare index = if ltb index bare then index + 1 else index

abbrev pub renumbered : ℕ → Tuple → Span
renumbered bare t = record {
  first_word = word_past bare t.first_index;
  last_word = word_past bare (t.end_index - 1);
  start_ms = t.from_ms;
  end_ms = t.to_ms;
}

word_at_past :
    (word_count bare index : ℕ)
    → nat_beq index bare ≡ false
    → index ≤ word_count
    → bare ≤ word_count
    → word_at word_count bare index ≡ word_past bare index
unfolding word_at
word_at_past word_count bare index h k l = ground arith

span_of-renumbered :
    (word_count bare prev_to : ℕ) (ts : List Tuple)
    → IsWalk prev_to ts
    → All (λ t. t.end_index ≤ word_count + 1) ts
    → any (covers bare) ts ≡ false
    → bare ≤ word_count
    → map (span_of word_count bare) ts ≡ map (renumbered bare) ts
span_of-renumbered word_count bare prev_to [] path below free inside = refl
span_of-renumbered word_count bare prev_to (t ∷ ts) path below free inside =
    let spared : covers bare t ≡ false = ground (arith, free) in
    let later =
      span_of-renumbered word_count bare t.end_index ts path.2 below.1 (ground (arith, free))
        inside in
    let starts =
      word_at_past word_count bare t.first_index (ground (arith, spared, path.1))
        (omega (arith, path.1, below.0)) inside in
    let ends =
      word_at_past word_count bare (t.end_index - 1) (ground (arith, spared, path.1))
        (omega (arith, path.1, below.0)) inside in
    rw (starts, ends, later) refl

split_of-bare :
    (word_count bare : ℕ) (ts : List Tuple)
    → IsWalk 0 ts
    → (walked word_count ts).slots ≡ word_count + 1
    → bare ≤ word_count
    → any (covers bare) ts ≡ false
    → ((j : ℕ) → j < bare → any (covers j) ts ≡ true)
    → split_of word_count (walked word_count ts) ≡ done bare
unfolding split_of
split_of-bare word_count bare ts path one_more inside free before =
    let more : nat_beq (walked word_count ts).slots word_count ≡ false = ground (arith, one_more) in
    let one : nat_beq (walked word_count ts).slots (word_count + 1) ≡ true =
      ground (arith, one_more) in
    let first =
      first_bare_at (walked word_count ts).aligned ((walked word_count ts).slots - 1) 0 bare
        (walked word_count ts).slots (omega arith) (omega (arith, one_more))
        (contains-aligned word_count bare ts 0 path ∙ free)
        (λ j l. contains-aligned word_count j ts 0 path ∙ before j l) in
    rw (more, one) (ap done first)

-- Timings that number one word more than the text, and time every index before `bare` but not that
-- one, keep the numbers before it, counted from 1, and name the word before from there on.
pub spans_past_bare :
    (word_count bare : ℕ) (ts : List Tuple)
    → IsWalk 0 ts
    → (walked word_count ts).slots ≡ word_count + 1
    → bare ≤ word_count
    → any (covers bare) ts ≡ false
    → ((j : ℕ) → j < bare → any (covers j) ts ≡ true)
    → spans (map written ts) word_count ≡ done (map (renumbered bare) ts)
unfolding spans
spans_past_bare word_count bare ts path one_more inside free before =
    let below =
      (slots_le word_count (word_count + 1) ts (omega arith)).0 (omega (arith, one_more)) in
    rw
      (
        walk_reads word_count 0 ts path,
        split_of-bare word_count bare ts path one_more inside free before,
        tuples-walked word_count ts,
      )
      (ap done (span_of-renumbered word_count bare 0 ts path below free inside))

free_past :
    (word_count : ℕ) (ts : List Tuple)
    → All (λ t. t.end_index ≤ word_count) ts
    → any (covers word_count) ts ≡ false
free_past word_count [] h = refl
free_past word_count (t ∷ ts) h = ground (arith, h.0, free_past word_count ts h.1)

-- Timings that stay within the words of the text keep their numbers, counted from 1.
pub spans_agree :
    (word_count : ℕ) (ts : List Tuple)
    → IsWalk 0 ts
    → All (λ t. t.end_index ≤ word_count) ts
    → spans (map written ts) word_count ≡ done (map (renumbered word_count) ts)
unfolding spans split_of
spans_agree word_count ts path below =
    let most = (slots_le word_count word_count ts (omega arith)).1 below in
    let slots : (walked word_count ts).slots ≡ word_count =
      omega (arith, most, slots-ge word_count ts) in
    let same : nat_beq (walked word_count ts).slots word_count ≡ true = ground (arith, slots) in
    let wider = All-imp _ (λ t. t.end_index ≤ word_count + 1) (λ t h. omega arith) ts below in
    rw (walk_reads word_count 0 ts path, same, slots, tuples-walked word_count ts)
      (ap done (
        span_of-renumbered word_count word_count 0 ts path wider (free_past word_count ts below)
          (omega arith)))
