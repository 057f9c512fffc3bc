-- ===== src/Etl/Rows.antt =====
-- The rows of server/cmd/etl/load.go: their ids, and normalizeSegments, which gives each word of a
-- span its row.
pub mod Steady
use wird.Prelude.{
  ℕ, zero, suc, ◌+◌, ◌-◌, ◌*◌, Bool, true, false, ◌||◌, not, List, [], ◌∷◌, ◌++◌, map,
  if◌then◌else◌,
}
use wird.Text.{Word}
use wird.Text.Decimal.{ℤ, pos}
use wird.Etl.Ints.{int_ltb, int_beq}
use wird.Etl.Spans.{Span, run}

abbrev pub ayah_id : ℕ → ℕ → ℕ
ayah_id surah ayah = surah * 1000 + ayah

abbrev pub word_id : ℕ → ℕ → ℕ
word_id ayah position = ayah * 1000 + position

pub record Surah : Type 0 where
  pub id : ℕ
  pub name_ar : Word
  pub name_en : Word
  pub ayah_count : ℕ
  pub revelation_order : ℕ
  pub revelation_place : Word

pub record Segment : Type 0 where
  pub word : ℕ
  pub starts : ℤ
  pub ends : ℤ

pub record Recitation : Type 0 where
  pub slug : Word
  pub timings : Word
  pub reciter_name : Word
  pub style : Word

pub record Recited : Type 0 where
  pub recitation : Recitation
  pub segments : List Segment
  pub untimed : ℤ
  pub clamped : ℕ

pub record Normalized : Type 0 where
  pub rows : List Segment
  pub changed : ℕ

-- The start that is written: no less than the one before.
abbrev pub start_of : ℤ → Span → ℤ
start_of prev_start sp = if int_ltb sp.start_ms prev_start then prev_start else sp.start_ms

abbrev pub end_of : ℤ → Span → ℤ
end_of s sp = if int_ltb sp.end_ms s then s else sp.end_ms

-- One row for each word of the span.
abbrev pub rows_of : ℕ → Span → ℤ → ℤ → List Segment
rows_of ayah sp s e =
    map (λ w. record { word = word_id ayah w; starts = s; ends = e })
      (run sp.first_word (sp.last_word + 1 - sp.first_word))

abbrev pub is_changed : Span → ℤ → ℤ → Bool
is_changed sp s e = not (int_beq s sp.start_ms) || not (int_beq e sp.end_ms)

unfoldable pub normalize_loop : ℕ → ℤ → List Span → Normalized
normalize_loop ayah prev_start [] = record { rows = []; changed = 0 }
normalize_loop ayah prev_start (sp ∷ spans) =
    let s = start_of prev_start sp in
    let e = end_of s sp in
    let n = normalize_loop ayah s spans in
    record {
      rows = rows_of ayah sp s e ++ n.rows;
      changed = if is_changed sp s e then n.changed + 1 else n.changed;
    }

unfoldable pub normalize_segments : List Span → ℕ → Normalized
unfolding normalize_loop
normalize_segments spans ayah = normalize_loop ayah (pos 0) spans
