-- ===== src/Sync/Changes.antt =====
-- The pull half of server/internal/store/sync.go: Changes and its cursor. Every row that a reader's
-- devices hold carries the number that the one sequence of the server gave it when it was last
-- written, and the columns that only this half reads.
pub mod Cursor
pub mod Pages
pub mod Following
use Prim.Native.String.{String}
use wird.Prelude.{
  ℕ, Bool, true, false, ◌&&◌, List, [], ◌∷◌, ◌++◌, map, Option, none, some, length, take, leb, ltb,
  nat_beq, ◌==◌, if◌then◌else◌,
}
use wird.Prelude.Texts.{string_eq}
use wird.Prelude.Attempt.{Attempt, done, fail, ◌>>=◌}
use wird.Prelude.Sort.{sort}
use wird.Text.{Word}
use wird.Text.Decimal.{ℤ, pos, negsuc, format_int, parse_int}
use wird.Sync.Tables.{DbError, Kept, Understood, SetRow, Prayer, Prefs, Position}

-- A row with its columns seq and id. The id is read where the row has none of its own.
pub record Stamped (R : Type 0) : Type 0 where
  pub seq : ℕ
  pub id : String
  pub row : R

pub record StampedTables : Type 0 where
  pub understood : List (Stamped Understood)
  pub kept : List (Stamped Kept)
  pub sets : List (Stamped SetRow)
  pub prayers : List (Stamped Prayer)
  pub prefs : List (Stamped Prefs)
  pub positions : List (Stamped Position)

-- The JSON object of a row, by its fields. Of a note it is every column but the reader's.
pub data Row : Type 0 where
  understood_row : ℕ → ℕ → Row
  kept_row : Kept → Row
  set_row : SetRow → Row
  prayer_row : Prayer → Row
  prefs_row : String → ℕ → Row
  position_row : ℕ → ℕ → ℕ → Row

pub record Change : Type 0 where
  pub kind : String
  pub id : String
  pub at : ℕ
  pub row : Row

pub record Changes : Type 0 where
  pub changes : List Change
  pub cursor : Word
  pub more : Bool

unfoldable pub change_page : ℕ
change_page = 500

abbrev pub of_understood : Stamped Understood → Change
of_understood s = record {
  kind = "ayah_understood";
  id = s.id;
  at = s.row.at;
  row = understood_row s.row.ayah_id s.row.at;
}

abbrev pub of_kept : Stamped Kept → Change
of_kept s = record {
  kind = "kept_items";
  id = s.row.id;
  at = s.row.updated_at;
  row = kept_row s.row;
}

abbrev pub of_set : Stamped SetRow → Change
of_set s = record { kind = "sets"; id = s.row.id; at = s.row.created_at; row = set_row s.row }

abbrev pub of_prayer : Stamped Prayer → Change
of_prayer s = record {
  kind = "set_prayers";
  id = s.row.id;
  at = s.row.prayed_at;
  row = prayer_row s.row;
}

abbrev pub of_prefs : Stamped Prefs → Change
of_prefs s = record {
  kind = "user_prefs";
  id = s.row.user;
  at = s.row.updated_at;
  row = prefs_row s.row.reading_order s.row.updated_at;
}

abbrev pub of_position : Stamped Position → Change
of_position s = record {
  kind = "reading_positions";
  id = s.id;
  at = s.row.updated_at;
  row = position_row s.row.surah_id s.row.word_id s.row.updated_at;
}

abbrev pub seq_leb : ℕ × Change → ℕ × Change → Bool
seq_leb a b = leb a.0 b.0

module _ (user : String) (since : ℕ) where
  -- One SELECT of the union: WHERE user_id = $1 AND seq > $2.
  unfoldable pub select :
      {R : Type 0} → (R → String) → (Stamped R → Change) → List (Stamped R) → List (ℕ × Change)
  select owner change [] = []
  select owner change (s ∷ rows) =
      let rest = select owner change rows in
      if (owner s.row == user) && ltb since s.seq then (s.seq, change s) ∷ rest else rest

  unfoldable pub changed : StampedTables → List (ℕ × Change)
  changed t =
      select (λ (r : Understood). r.user) of_understood t.understood
      ++ (select (λ (r : Kept). r.user) of_kept t.kept
          ++ (select (λ (r : SetRow). r.user) of_set t.sets
              ++ (select (λ (r : Prayer). r.user) of_prayer t.prayers
                  ++ (select (λ (r : Prefs). r.user) of_prefs t.prefs
                      ++ select (λ (r : Position). r.user) of_position t.positions))))

  -- ORDER BY seq LIMIT $3
  unfoldable pub changes_sql : ℕ → StampedTables → List (ℕ × Change)
  changes_sql limit t = take limit (sort seq_leb (changed t))

-- "seq:"
abbrev pub cursor_prefix : Word
cursor_prefix = 0x73 ∷ 0x65 ∷ 0x71 ∷ 0x3A ∷ []

unfoldable pub format_cursor : ℕ → Word
format_cursor seq = cursor_prefix ++ format_int seq

-- strings.CutPrefix
abbrev pub cut_prefix : Word → Word → Option Word
cut_prefix text [] = some text
cut_prefix [] (p ∷ prefix) = none
cut_prefix (c ∷ text) (p ∷ prefix) = if nat_beq c p then cut_prefix text prefix else none

pub data ChangesError : Type 0 where
  bad_cursor : ChangesError
  query_failed : DbError → ChangesError

abbrev pub position_of : Option ℤ → Attempt ChangesError ℕ
position_of none = fail bad_cursor
position_of (some (negsuc n)) = fail bad_cursor
position_of (some (pos seq)) = done seq

abbrev pub after_prefix : Option Word → Attempt ChangesError ℕ
after_prefix none = fail bad_cursor
after_prefix (some rest) = position_of (parse_int rest)

unfoldable pub parse_cursor : Word → Attempt ChangesError ℕ
parse_cursor [] = done 0
parse_cursor (c ∷ cursor) = after_prefix (cut_prefix (c ∷ cursor) cursor_prefix)

-- The seq of the last row that was scanned.
abbrev pub last_seq : ℕ → List (ℕ × Change) → ℕ
last_seq last [] = last
last_seq last (r ∷ rows) = last_seq r.0 rows

unfoldable pub answer_page : Word → List (ℕ × Change) → Changes
answer_page cursor [] = record { changes = []; cursor = cursor; more = false }
answer_page cursor (r ∷ rows) = record {
  changes = map (λ c. c.1) (r ∷ rows);
  cursor = format_cursor (last_seq 0 (r ∷ rows));
  more = nat_beq (length (r ∷ rows)) change_page;
}

-- `broke` is the error of the query or of the reading of its rows. What was read before is dropped
-- with it, as the caller does.
unfoldable pub changes :
    Option DbError → StampedTables → String → Word → Attempt ChangesError Changes
changes broke t user cursor = do
  since ← parse_cursor cursor
  elim broke [
    | none ↦ done (answer_page cursor (changes_sql user since change_page t))
    | some e ↦ fail (query_failed e)
  ]
