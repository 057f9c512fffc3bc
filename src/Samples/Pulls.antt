-- ===== src/Samples/Pulls.antt =====
-- A reader with a note and a place, beside another reader, and a cursor.
use Prim.Native.String.{String}
use wird.Prelude.{◌≡◌, refl, ◌*◌, ◌<◌, [], ◌∷◌, none, some, arith, length, IsNodup, nat_eq, All}
use wird.Prelude.Attempt.{done}
use wird.Prelude.Sort.{sort}
use wird.Text.Decimal.{int64_limit}
use wird.Sync.Tables.{Kept, Position}
use wird.Sync.Changes.{
  StampedTables, change_page, seq_leb, select, changed, parse_cursor, format_cursor,
}
use wird.Sync.Changes.Cursor.{parse_cursor-format_cursor}
use wird.Sync.Changes.Pages.{seqs}
use wird.Sync.Changes.Following.{follow, rows_of, follow_complete}

abbrev note : String → Kept
note user = record {
  id = "8a";
  user = user;
  kind = "note";
  ayah_id = some 7;
  root_letters = none;
  body = "";
  tags = [];
  created_at = 1;
  updated_at = 2;
  deleted_at = none;
}

abbrev place : Position
place = record { user = "reader"; surah_id = 2; word_id = 40; updated_at = 3 }

abbrev tables : StampedTables
tables = record {
  understood = [];
  kept =
      record { seq = 12; id = ""; row = note "reader" }
      ∷ record { seq = 5; id = ""; row = note "other" }
      ∷ [];
  sets = [];
  prayers = [];
  prefs = [];
  positions = record { seq = 9; id = "9c"; row = place } ∷ [];
}

distinct : IsNodup (seqs (changed "reader" 0 tables))
unfolding changed select
distinct = (refl, (refl, tt))

small : All (λ c. c.0 < int64_limit) (changed "reader" 0 tables)
unfolding changed select
small = omega arith

few : length (changed "reader" 0 tables) < 1 * change_page
unfolding changed select change_page
few = omega arith

follow_complete_example :
    follow tables "reader" 1 [] ≡ done (rows_of (sort seq_leb (changed "reader" 0 tables)))
follow_complete_example = follow_complete tables "reader" distinct small 1 few

parse_cursor-format_cursor_example : parse_cursor (format_cursor 12) ≡ done 12
parse_cursor-format_cursor_example = parse_cursor-format_cursor 12 (omega arith)
