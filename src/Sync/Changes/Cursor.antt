-- ===== src/Sync/Changes/Cursor.antt =====
-- Cursors that the server wrote are read back, and others are refused.
use wird.Prelude.{◌≡◌, ap, ℕ, ◌<◌}
use wird.Prelude.Attempt.{done}
use wird.Text.Decimal.{int64_limit, parse_int-format_int}
use wird.Sync.Changes.{format_cursor, position_of, parse_cursor}

-- The cursor of a position is read back as that position.
pub parse_cursor-format_cursor :
    (seq : ℕ) → seq < int64_limit → parse_cursor (format_cursor seq) ≡ done seq
unfolding format_cursor parse_cursor
parse_cursor-format_cursor seq h = ap position_of (parse_int-format_int seq h)
