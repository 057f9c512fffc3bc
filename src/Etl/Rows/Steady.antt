-- ===== src/Etl/Rows/Steady.antt =====
-- The rows of an aya: their order in time, the words they are for, and when they keep the times read.
use wird.Prelude.{
  ◌≡◌, refl, ℕ, zero, suc, ◌+◌, ◌-◌, ◌≤◌, false, List, [], ◌∷◌, ◌++◌, map, inl, inr, All,
  All-append, Bool-cases, arith,
}
use wird.Text.Decimal.{ℤ, pos}
use wird.Etl.Ints.{int_ltb, int_ltb_irrefl, int_ltb_trans, int_beq_refl}
use wird.Etl.Spans.{Span, run}
use wird.Etl.Spans.Words.{IsInOrder}
use wird.Etl.Rows.{Segment, word_id, start_of, end_of, rows_of, normalize_loop, normalize_segments}

-- No row starts before the row before it, and none ends before it starts.
abbrev pub IsSteady : ℤ → List Segment → Type 0
IsSteady prev [] = Unit {0}
IsSteady prev (s ∷ rest) =
    (int_ltb s.starts prev ≡ false) × (int_ltb s.ends s.starts ≡ false) × IsSteady s.starts rest

start_of-ge : (prev : ℤ) (sp : Span) → int_ltb (start_of prev sp) prev ≡ false
start_of-ge prev sp = elim (Bool-cases (int_ltb sp.start_ms prev)) [
  | inl e ↦ rw e (int_ltb_irrefl prev)
  | inr e ↦ rw e e
]

end_of-ge : (s : ℤ) (sp : Span) → int_ltb (end_of s sp) s ≡ false
end_of-ge s sp = elim (Bool-cases (int_ltb sp.end_ms s)) [
  | inl e ↦ rw e (int_ltb_irrefl s)
  | inr e ↦ rw e e
]

IsSteady_later :
    (prev s : ℤ) (rest : List Segment)
    → int_ltb s prev ≡ false
    → IsSteady s rest
    → IsSteady prev rest
IsSteady_later prev s [] h l = tt
IsSteady_later prev s (r ∷ rest) h l = (int_ltb_trans r.starts s prev l.0 h, l.1, l.2)

-- The rows of one span, and what follows.
steady_rows :
    (prev s e : ℤ) (ayah first n : ℕ) (rest : List Segment)
    → int_ltb s prev ≡ false
    → int_ltb e s ≡ false
    → IsSteady s rest
    → IsSteady prev
        (map (λ w. record { word = word_id ayah w; starts = s; ends = e }) (run first n) ++ rest)
unfolding run
steady_rows prev s e ayah first zero rest h k l = IsSteady_later prev s rest h l
steady_rows prev s e ayah first (suc n) rest h k l =
    (h, k, steady_rows s s e ayah (suc first) n rest (int_ltb_irrefl s) k l)

normalize_loop-IsSteady :
    (ayah : ℕ) (prev : ℤ) (spans : List Span) → IsSteady prev (normalize_loop ayah prev spans).rows
unfolding normalize_loop
normalize_loop-IsSteady ayah prev [] = tt
normalize_loop-IsSteady ayah prev (sp ∷ spans) =
    let s = start_of prev sp in
    steady_rows prev s (end_of s sp) ayah sp.first_word (sp.last_word + 1 - sp.first_word) _
      (start_of-ge prev sp) (end_of-ge s sp) (normalize_loop-IsSteady ayah s spans)

-- Whatever the times of an aya's spans are, its rows are steady, from 0 on.
pub normalize_segments-IsSteady :
    (spans : List Span) (ayah : ℕ) → IsSteady (pos 0) (normalize_segments spans ayah).rows
unfolding normalize_segments
normalize_segments-IsSteady spans ayah = normalize_loop-IsSteady ayah (pos 0) spans

-- A row that is for one of the aya's words.
abbrev pub IsWordOf : ℕ → ℕ → Segment → Type 0
IsWordOf ayah word_count s = (p : ℕ) × (s.word ≡ word_id ayah p) × (1 ≤ p) × (p ≤ word_count)

rows_of-IsWordOf :
    (ayah word_count first n : ℕ) (s e : ℤ)
    → 1 ≤ first
    → first + n ≤ word_count + 1
    → All
        (IsWordOf ayah word_count)
        (map (λ w. record { word = word_id ayah w; starts = s; ends = e }) (run first n))
unfolding run
rows_of-IsWordOf ayah word_count first zero s e h k = tt
rows_of-IsWordOf ayah word_count first (suc n) s e h k = (
  (first, refl, h, omega arith),
  rows_of-IsWordOf ayah word_count (suc first) n s e (omega arith) (omega arith),
)

normalize_loop-IsWordOf :
    (ayah word_count low : ℕ) (prev : ℤ) (spans : List Span)
    → 1 ≤ low
    → IsInOrder low word_count spans
    → All (IsWordOf ayah word_count) (normalize_loop ayah prev spans).rows
unfolding normalize_loop
normalize_loop-IsWordOf ayah word_count low prev [] h o = tt
normalize_loop-IsWordOf ayah word_count low prev (sp ∷ spans) h o =
    let s = start_of prev sp in
    All-append (IsWordOf ayah word_count) (rows_of ayah sp s (end_of s sp)) _
      (rows_of-IsWordOf ayah word_count sp.first_word (sp.last_word + 1 - sp.first_word) s
        (end_of s sp) (omega (arith, o.0)) (omega (arith, o.1, o.2)))
      (normalize_loop-IsWordOf ayah word_count sp.last_word s spans (omega (arith, o.0, o.1)) o.3)

pub normalize_segments-IsWordOf :
    (ayah word_count : ℕ) (spans : List Span)
    → IsInOrder 1 word_count spans
    → All (IsWordOf ayah word_count) (normalize_segments spans ayah).rows
unfolding normalize_segments
normalize_segments-IsWordOf ayah word_count spans o =
    normalize_loop-IsWordOf ayah word_count 1 (pos 0) spans (omega arith) o

-- Spans whose starts do not go back, each ending no earlier than it starts.
abbrev pub IsTimely : ℤ → List Span → Type 0
IsTimely prev [] = Unit {0}
IsTimely prev (sp ∷ spans) =
    (int_ltb sp.start_ms prev ≡ false)
    × (int_ltb sp.end_ms sp.start_ms ≡ false)
    × IsTimely sp.start_ms spans

abbrev pub as_read : ℕ → List Span → List Segment
as_read ayah [] = []
as_read ayah (sp ∷ spans) = rows_of ayah sp sp.start_ms sp.end_ms ++ as_read ayah spans

normalize_loop_keeps :
    (ayah : ℕ) (prev : ℤ) (spans : List Span)
    → IsTimely prev spans
    → normalize_loop ayah prev spans ≡ record { rows = as_read ayah spans; changed = 0 }
unfolding normalize_loop
normalize_loop_keeps ayah prev [] h = refl
normalize_loop_keeps ayah prev (sp ∷ spans) h =
    rw
      (
        h.0,
        h.1,
        int_beq_refl sp.start_ms,
        int_beq_refl sp.end_ms,
        normalize_loop_keeps ayah sp.start_ms spans h.2,
      )
      refl

-- Spans that are in order keep their times, and none is counted as changed.
pub normalize_segments_keeps :
    (spans : List Span) (ayah : ℕ)
    → IsTimely (pos 0) spans
    → normalize_segments spans ayah ≡ record { rows = as_read ayah spans; changed = 0 }
unfolding normalize_segments
normalize_segments_keeps spans ayah h = normalize_loop_keeps ayah (pos 0) spans h
