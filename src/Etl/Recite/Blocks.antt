-- ===== src/Etl/Recite/Blocks.antt =====
-- What a recitation that passed is made of: the rows of each aya in turn.
use wird.Prelude.{
  ◌≡◌, refl, sym, ap, subst, ◌∙◌, ℕ, ◌≤◌, false, Option, pair_eq, nat_eq, List, [], ◌∷◌, ◌++◌, All,
  inl, inr, Bool-cases,
}
use mathlib.Core.List.{append_assoc, append-nil}
use wird.Prelude.Attempt.{Attempt, done, fail, >>=-eq-done}
use wird.Prelude.Map.{Map, get}
use wird.Text.Decimal.{ℤ, pos}
use wird.Etl.Ints.{int_ltb}
use wird.Etl.Spans.{Span, SpanError, spans}
use wird.Etl.Spans.Words.{spans-IsInOrder}
use wird.Etl.Rows.{Segment, Recitation, Recited, Surah, ayah_id, normalize_segments}
use wird.Etl.Rows.Steady.{
  IsSteady, IsWordOf, normalize_segments-IsSteady, normalize_segments-IsWordOf,
}
use wird.Etl.Recite.{
  AyahTimings, Timings, tuples_at, words_of, max_untimed_words, too_many_untimed, lift_spans,
  with_rows, recite_tuples, recite_ayah, recite_loop, load_timings, visits, load_recitation,
  within_untimed,
}

-- The rows of one aya: for its words alone, and steady.
abbrev pub IsBlock : ℕ → ℕ → List Segment → Type 0
IsBlock ayah words rows = IsSteady (pos 0) rows × All (IsWordOf ayah words) rows

-- The rows of the ayas that are visited, one block after the other.
abbrev pub IsRecited : (ℕ × ℕ → ℕ) → List (ℕ × ℕ) → List Segment → Type 0
IsRecited words [] segments = segments ≡ []
IsRecited words (v ∷ rest) segments =
    (rows : List Segment) × (tail : List Segment) × (segments ≡ rows ++ tail)
    × IsBlock (ayah_id v.0 v.1) (words v) rows
    × IsRecited words rest tail

pub lift_spans_inv :
    (surah ayah : ℕ) (m : Attempt SpanError (List Span)) {out : List Span}
    → lift_spans surah ayah m ≡ done out
    → m ≡ done out
lift_spans_inv surah ayah (done o) h = cc
lift_spans_inv surah ayah (fail e) h = cc

recite_tuples_inv :
    (r : Recited) (words surah ayah : ℕ) (raw : List (List ℤ)) {r' : Recited}
    → 1 ≤ words
    → recite_tuples r words surah ayah raw ≡ done r'
    → (rows : List Segment) × (r'.segments ≡ r.segments ++ rows)
      × IsBlock (ayah_id surah ayah) words rows
recite_tuples_inv r words surah ayah [] one h = cc
recite_tuples_inv r words surah ayah (t ∷ raw) {r'} one h =
    let (out, lifted, made) = >>=-eq-done (lift_spans surah ayah (spans (t ∷ raw) words)) _ h in
    let read = lift_spans_inv surah ayah (spans (t ∷ raw) words) lifted in
    let id = ayah_id surah ayah in
    let same : with_rows words (normalize_segments out id) r ≡ r' = cc in
    (
      (normalize_segments out id).rows,
      ap (λ (x : Recited). x.segments) (sym same),
      (
        normalize_segments-IsSteady out id,
        normalize_segments-IsWordOf id words out (spans-IsInOrder (t ∷ raw) words out one read),
      ),
    )

recite_loop_inv :
    (segs : Timings) (words_per_ayah : Map ℕ ℕ) (r : Recited) (vs : List (ℕ × ℕ)) {r' : Recited}
    → All (λ v. 1 ≤ words_of words_per_ayah v) vs
    → recite_loop segs words_per_ayah r vs ≡ done r'
    → (tail : List Segment) × (r'.segments ≡ r.segments ++ tail)
      × IsRecited (words_of words_per_ayah) vs tail
unfolding recite_loop recite_ayah
recite_loop_inv segs words_per_ayah r [] {r'} one h =
    let same : r ≡ r' = cc in
    ([], ap (λ (x : Recited). x.segments) (sym same) ∙ sym (append-nil r.segments), refl)
recite_loop_inv segs words_per_ayah r (v ∷ vs) {r'} one h =
    let (next, first, later) = >>=-eq-done (recite_ayah segs words_per_ayah r v) _ h in
    let (rows, added, block) =
      recite_tuples_inv r (words_of words_per_ayah v) v.0 v.1 (tuples_at (get segs v)) one.0
        first in
    let (tail, more, rest) = recite_loop_inv segs words_per_ayah next vs one.1 later in
    (
      rows ++ tail,
      more ∙ ap (λ l. l ++ tail) added ∙ append_assoc r.segments rows tail,
      (rows, tail, refl, block, rest),
    )

pub within_untimed_inv :
    (r : Recited) {r' : Recited}
    → within_untimed r ≡ done r'
    → (r ≡ r') × (int_ltb max_untimed_words r'.untimed ≡ false)
within_untimed_inv r h = elim (Bool-cases (int_ltb max_untimed_words r.untimed)) [
  | inl e ↦ let over : within_untimed r ≡ fail (too_many_untimed r.untimed) = rw e refl in absurd cc
  | inr e ↦
      let kept : within_untimed r ≡ done r = rw e refl in
      let same : r ≡ _ = cc in
      (same, subst (λ (x : Recited). int_ltb max_untimed_words x.untimed ≡ false) same e)
]

-- Where every aya has a word at least, a recitation that passed is the rows of its ayas in turn, each
-- aya's for its own words and steady, and leaves at most as many words untimed as is allowed.
pub load_recitation_blocks :
    (file : Option (List AyahTimings)) (rec : Recitation) (surahs : List Surah)
    (words_per_ayah : Map ℕ ℕ) {r : Recited}
    → All (λ v. 1 ≤ words_of words_per_ayah v) (visits surahs)
    → load_recitation file rec surahs words_per_ayah ≡ done r
    → IsRecited (words_of words_per_ayah) (visits surahs) r.segments
      × (int_ltb max_untimed_words r.untimed ≡ false)
unfolding load_recitation
load_recitation_blocks file rec surahs words_per_ayah {r} one h =
    let (segs, loaded, rest) = >>=-eq-done (load_timings file) _ h in
    let (last, looped, judged) =
      >>=-eq-done (recite_loop segs words_per_ayah _ (visits surahs)) within_untimed rest in
    let (same, under) = within_untimed_inv last judged in
    let (tail, made, blocks) = recite_loop_inv segs words_per_ayah _ (visits surahs) one looped in
    let these : tail ≡ r.segments = sym made ∙ ap (λ (x : Recited). x.segments) same in
    (subst (IsRecited (words_of words_per_ayah) (visits surahs)) these blocks, under)
